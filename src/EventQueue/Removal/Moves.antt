-- ===== src/EventQueue/Removal/Moves.antt =====
-- The steps of one thread through `Dispatch` and the wait keep the invariant.
use message_center_cpp.Common.{
  ℕ, ◌+◌, ◌-◌, ◌≤◌, ◌<◌, ◌≡◌, refl, ap, ◌≢◌, ◌⊎◌, inl, inr, List, [], ◌∷◌, ◌++◌, arith,
}
use message_center_cpp.EventQueue.Removal.{Pc, idle, invoking, waiting, System, update}
use message_center_cpp.EventQueue.Removal.Threads.{
  busy, pending, dispatching, dispatching-update, dispatching-zero, pending-nil, Absent,
}
use message_center_cpp.EventQueue.Removal.Invariant.{Within, Inv, update_cases}

Within-append : (x : ℕ) (xs ys : List ℕ) → Within x (xs ++ ys) → Within x xs ⊎ Within x ys
Within-append x [] ys w = inr w
Within-append x (z ∷ xs) ys (inl e) = inl (inl e)
Within-append x (z ∷ xs) ys (inr w) = elim (Within-append x xs ys w) [
  | inl h ↦ inl (inr h)
  | inr h ↦ inr h
]

module _ {n : ℕ} {s : System} (v : Inv n s) where
  -- one thread moves, and the lists stay
  module _ (i : ℕ) (p : Pc) (lt : i < n) where
    pub moved_counted :
        (k : ℕ)
        → k + busy (s.pc i) ≡ s.active_dispatches + busy p
        → k ≡ dispatching n (update s.pc i p)
    moved_counted k e = omega (arith, dispatching-update n i s.pc p lt, v.counted)

    pub moved_unreached :
        ((x : ℕ) → Within x s.returned → Absent x (pending p))
        → (j x : ℕ) → j < n
        → Within x s.returned
        → Absent x (pending (update s.pc i p j))
    moved_unreached h j x jn w =
        update_cases (λ c. Absent x (pending c)) s.pc i p j (λ e. h x w)
          (λ ne. v.unreached j x jn w)

    pub moved_waiting :
        ((xs : List ℕ) → p ≢ waiting xs)
        → (j : ℕ) (xs : List ℕ) → update s.pc i p j ≡ waiting xs
        → s.pc j ≡ waiting xs
    moved_waiting h j xs =
        update_cases (λ c. c ≡ waiting xs → s.pc j ≡ waiting xs) s.pc i p j (λ e q. absurd (h xs q))
          (λ ne q. q)

  pub begin-Inv :
      (i topic : ℕ)
      → i < n
      → s.pc i ≡ idle
      → Inv n (record s {
        active_dispatches = s.active_dispatches + 1;
        pc = update s.pc i (invoking (s.observers topic));
      })
  begin-Inv i topic lt e = record {
    counted =
        moved_counted i (invoking (s.observers topic)) lt (s.active_dispatches + 1)
          (rw e (omega arith));
    distinct = v.distinct;
    below = v.below;
    at_home = v.at_home;
    old = v.old;
    gone = v.gone;
    unreached = moved_unreached i (invoking (s.observers topic)) lt (λ x w. v.gone x topic w);
    erased_old = λ j x xs e' w. v.erased_old j x xs (moved_waiting i _ lt (λ y q. cc) j xs e') w;
    erased = λ j x t xs e' w. v.erased j x t xs (moved_waiting i _ lt (λ y q. cc) j xs e') w;
  }

  pub call-Inv :
      (i y : ℕ) (ys : List ℕ)
      → i < n
      → s.pc i ≡ invoking (y ∷ ys)
      → Inv n (record s { pc = update s.pc i (invoking ys) })
  call-Inv i y ys lt e = record {
    counted = moved_counted i (invoking ys) lt s.active_dispatches (rw e (omega arith));
    distinct = v.distinct;
    below = v.below;
    at_home = v.at_home;
    old = v.old;
    gone = v.gone;
    unreached = moved_unreached i (invoking ys) lt (λ x w. (rw e at (v.unreached i x lt w)).1);
    erased_old = λ j x xs e' w. v.erased_old j x xs (moved_waiting i _ lt (λ y q. cc) j xs e') w;
    erased = λ j x t xs e' w. v.erased j x t xs (moved_waiting i _ lt (λ y q. cc) j xs e') w;
  }

  pub finish-Inv :
      (i : ℕ)
      → i < n
      → s.pc i ≡ invoking []
      → Inv n (record s { active_dispatches = s.active_dispatches - 1; pc = update s.pc i idle })
  finish-Inv i lt e = record {
    counted = moved_counted i idle lt (s.active_dispatches - 1) (rw e (omega (arith, some_busy)));
    distinct = v.distinct;
    below = v.below;
    at_home = v.at_home;
    old = v.old;
    gone = v.gone;
    unreached = moved_unreached i idle lt (λ x w. tt);
    erased_old = λ j x xs e' w. v.erased_old j x xs (moved_waiting i _ lt (λ y q. cc) j xs e') w;
    erased = λ j x t xs e' w. v.erased j x t xs (moved_waiting i _ lt (λ y q. cc) j xs e') w;
  }
    where
      some_busy : 1 ≤ s.active_dispatches
      some_busy = omega (arith, v.counted, dispatching-update n i s.pc idle lt, ap busy e)

  pub return-Inv :
      (i : ℕ) (xs : List ℕ)
      → i < n
      → s.pc i ≡ waiting xs
      → s.active_dispatches ≡ 0
      → Inv n (record s { pc = update s.pc i idle; returned = xs ++ s.returned })
  return-Inv i xs lt e none_active = record {
    counted = moved_counted i idle lt s.active_dispatches (rw e refl);
    distinct = v.distinct;
    below = v.below;
    at_home = v.at_home;
    old = λ y w. elim (Within-append y xs s.returned w) [
      | inl q ↦ v.erased_old i y xs e q
      | inr w' ↦ v.old y w'
    ];
    gone = λ y t w. elim (Within-append y xs s.returned w) [
      | inl q ↦ v.erased i y t xs e q
      | inr w' ↦ v.gone y t w'
    ];
    unreached = λ j y jn w.
        update_cases (λ c. Absent y (pending c)) s.pc i idle j (λ q. tt) (λ ne. quiet j y jn);
    erased_old = λ j y ys e' w. v.erased_old j y ys (moved_waiting i _ lt (λ z q. cc) j ys e') w;
    erased = λ j y t ys e' w. v.erased j y t ys (moved_waiting i _ lt (λ z q. cc) j ys e') w;
  }
    where
      quiet : (j y : ℕ) → j < n → Absent y (pending (s.pc j))
      quiet j y jn =
          rw (pending-nil (s.pc j) (dispatching-zero n j s.pc (omega (arith, v.counted)) jn)) tt
