-- ===== src/EventQueue/Removal/Invariant.antt =====
-- The invariant of the protocol in src/eventqueue.cpp, and `AddObserver` in it.
use message_center_cpp.Common.{
  ℕ, ◌+◌, ◌<◌, ◌≡◌, ◌≢◌, ◌⊎◌, List, [], ◌∷◌, ◌++◌, All, All-append, arith, ℕ_discrete, ==_iff,
  ne→not_==,
}
use message_center_cpp.EventQueue.Removal.{waiting, System, update, start}
use message_center_cpp.EventQueue.Removal.Threads.{
  pending, dispatching, none_busy, Absent, Distinct, Absent-below, Below_suc, Distinct-snoc,
}

abbrev pub Within : ℕ → List ℕ → Type 0
Within x [] = ⊥
Within x (y ∷ ys) = (y ≡ x) ⊎ Within x ys

pub record Inv (n : ℕ) (s : System) : Type 0 where
  pub counted : s.active_dispatches ≡ dispatching n s.pc
  pub distinct : (t : ℕ) → Distinct (s.observers t)
  pub below : (t : ℕ) → All (λ x. x < s.next_observer_id) (s.observers t)
  pub at_home : (t : ℕ) → All (λ x. s.home x ≡ t) (s.observers t)
  pub old : (x : ℕ) → Within x s.returned → x < s.next_observer_id
  pub gone : (x t : ℕ) → Within x s.returned → Absent x (s.observers t)
  pub unreached : (i x : ℕ) → i < n → Within x s.returned → Absent x (pending (s.pc i))
  pub erased_old :
      (i x : ℕ) (xs : List ℕ) → s.pc i ≡ waiting xs → Within x xs → x < s.next_observer_id
  pub erased :
      (i x t : ℕ) (xs : List ℕ) → s.pc i ≡ waiting xs → Within x xs → Absent x (s.observers t)

module _ {A : Type 0} (P : A → Type 0) (f : ℕ → A) (i : ℕ) (v : A) (j : ℕ) where
  pub update_cases : (i ≡ j → P v) → (i ≢ j → P (f j)) → P (update f i v j)
  update_cases h k = elim (ℕ_discrete i j) [
    | yes e ↦ rw ((==_iff i j).1 e) (h e)
    | no ne ↦ rw (ne→not_== i j ne) (k ne)
  ]

pub start-Inv : (n : ℕ) → Inv n start
start-Inv n = record {
  counted = none_busy n;
  distinct = λ t. tt;
  below = λ t. tt;
  at_home = λ t. tt;
  old = λ x w. absurd w;
  gone = λ x t w. absurd w;
  unreached = λ i x h w. absurd w;
  erased_old = λ i x xs e w. cc;
  erased = λ i x t xs e w. tt;
}

module _ {n : ℕ} {s : System} (v : Inv n s) where
  -- the IDs that are in a list stay at home when a fresh ID is given out
  home_kept :
      (topic t : ℕ) (xs : List ℕ)
      → All (λ x. x < s.next_observer_id) xs
      → All (λ x. s.home x ≡ t) xs
      → All (λ x. update s.home s.next_observer_id topic x ≡ t) xs
  home_kept topic t [] b h = tt
  home_kept topic t (x ∷ xs) b h = (ground arith, home_kept topic t xs b.1 h.1)

  Absent-last :
      (x : ℕ) (xs : List ℕ)
      → x < s.next_observer_id
      → Absent x xs
      → Absent x (xs ++ s.next_observer_id ∷ [])
  Absent-last x xs lt a = All-append _ xs (s.next_observer_id ∷ []) a (omega arith, tt)

  pub add-Inv :
      (topic : ℕ)
      → Inv n (record s {
        observers = update s.observers topic (s.observers topic ++ s.next_observer_id ∷ []);
        next_observer_id = s.next_observer_id + 1;
        home = update s.home s.next_observer_id topic;
      })
  add-Inv topic = record {
    counted = v.counted;
    distinct = λ t.
        update_cases Distinct s.observers topic _ t
          (λ e.
            Distinct-snoc (s.observers topic) s.next_observer_id (v.distinct topic)
              (Absent-below s.next_observer_id (s.observers topic) (v.below topic)))
          (λ ne. v.distinct t);
    below = λ t.
        update_cases (All (λ x. x < s.next_observer_id + 1)) s.observers topic _ t
          (λ e.
            All-append _ (s.observers topic) (s.next_observer_id ∷ [])
              (Below_suc s.next_observer_id (s.observers topic) (v.below topic)) (omega arith, tt))
          (λ ne. Below_suc s.next_observer_id (s.observers t) (v.below t));
    at_home = λ t.
        update_cases (All (λ x. update s.home s.next_observer_id topic x ≡ t)) s.observers topic _ t
          (λ e.
            All-append _ (s.observers topic) (s.next_observer_id ∷ [])
              (home_kept topic t (s.observers topic) (v.below topic) (rw (← e) (v.at_home topic)))
              (ground arith, tt))
          (λ ne. home_kept topic t (s.observers t) (v.below t) (v.at_home t));
    old = λ x w. omega (arith, v.old x w);
    gone = λ x t w.
        update_cases (Absent x) s.observers topic _ t
          (λ e. Absent-last x (s.observers topic) (v.old x w) (v.gone x topic w))
          (λ ne. v.gone x t w);
    unreached = v.unreached;
    erased_old = λ i x xs e w. omega (arith, v.erased_old i x xs e w);
    erased = λ i x t xs e' w.
        update_cases (Absent x) s.observers topic _ t
          (λ e.
            Absent-last x (s.observers topic) (v.erased_old i x xs e' w)
              (v.erased i x topic xs e' w))
          (λ ne. v.erased i x t xs e' w);
  }
