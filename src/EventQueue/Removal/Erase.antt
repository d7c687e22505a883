-- ===== src/EventQueue/Removal/Erase.antt =====
-- The erase of a removal keeps the invariant.
use message_center_cpp.Common.{
  ℕ, ◌<◌, ◌≡◌, refl, ◌≢◌, Bool, true, inl, inr, List, [], ◌∷◌, All, Bool-cases,
}
use message_center_cpp.EventQueue.Removal.{
  idle, waiting, System, update, erase_id, erase_matching, matched,
}
use message_center_cpp.EventQueue.Removal.Threads.{
  Absent, Distinct, erase_id-All, erase_id-Distinct, erase_id-Absent,
}
use message_center_cpp.EventQueue.Removal.Invariant.{Within, Inv, update_cases}
use message_center_cpp.EventQueue.Removal.Moves.{moved_counted, moved_unreached}

erase_matching-All :
    (P : ℕ → Type 0) (matches : ℕ → Bool) (xs : List ℕ)
    → All P xs
    → All P (erase_matching matches xs)
unfolding erase_matching
erase_matching-All P matches [] h = tt
erase_matching-All P matches (y ∷ ys) h = elim (Bool-cases (matches y)) [
  | inl e ↦ rw e (erase_matching-All P matches ys h.1)
  | inr e ↦ rw e (h.0, erase_matching-All P matches ys h.1)
]

erase_matching-Distinct :
    (matches : ℕ → Bool) (xs : List ℕ) → Distinct xs → Distinct (erase_matching matches xs)
unfolding erase_matching
erase_matching-Distinct matches [] d = tt
erase_matching-Distinct matches (y ∷ ys) d = elim (Bool-cases (matches y)) [
  | inl e ↦ rw e (erase_matching-Distinct matches ys d.1)
  | inr e ↦
      rw e (erase_matching-All (λ z. z ≢ y) matches ys d.0, erase_matching-Distinct matches ys d.1)
]

-- What is left does not match.
erase_matching-left :
    (matches : ℕ → Bool) (x : ℕ) (xs : List ℕ)
    → matches x ≡ true
    → Absent x (erase_matching matches xs)
unfolding erase_matching
erase_matching-left matches x [] h = tt
erase_matching-left matches x (y ∷ ys) h = elim (Bool-cases (matches y)) [
  | inl e ↦ rw e (erase_matching-left matches x ys h)
  | inr e ↦ rw e (λ q. cc, erase_matching-left matches x ys h)
]

-- What is erased matches, and was in the list.
matched_lem :
    (P : ℕ → Type 0) (matches : ℕ → Bool) (x : ℕ) (xs : List ℕ)
    → All P xs
    → Within x (matched matches xs)
    → (matches x ≡ true) × P x
unfolding matched
matched_lem P matches x [] h = λ w. absurd w
matched_lem P matches x (y ∷ ys) h = elim (Bool-cases (matches y)) [
  | inl e ↦
      rw e (λ w. elim w [ inl q ↦ rw (← q) (e, h.0) | inr w' ↦ matched_lem P matches x ys h.1 w' ])
  | inr e ↦ rw e (matched_lem P matches x ys h.1)
]

module _ {n : ℕ} {s : System} (v : Inv n s) where
  elsewhere : (x t : ℕ) (xs : List ℕ) → s.home x ≢ t → All (λ y. s.home y ≡ t) xs → Absent x xs
  elsewhere x t [] ne h = tt
  elsewhere x t (y ∷ ys) ne h = (λ e. ne (rw (← e) h.0), elsewhere x t ys ne h.1)

  -- the erase of some IDs from one topic
  module _ (topic : ℕ) (f : List ℕ → List ℕ)
      (f-All : (P : ℕ → Type 0) (xs : List ℕ) → All P xs → All P (f xs))
      (f-Distinct : (xs : List ℕ) → Distinct xs → Distinct (f xs)) where
    abbrev erased_lists : ℕ → List ℕ
    erased_lists = update s.observers topic (f (s.observers topic))

    erased_All : (P : ℕ → Type 0) (t : ℕ) → All P (s.observers t) → All P (erased_lists t)
    erased_All P t h =
        update_cases (All P) s.observers topic _ t (λ e. rw e (f-All P (s.observers t) h)) (λ ne. h)

    erased_Distinct : (t : ℕ) → Distinct (erased_lists t)
    erased_Distinct t =
        update_cases Distinct s.observers topic _ t
          (λ e. f-Distinct (s.observers topic) (v.distinct topic)) (λ ne. v.distinct t)

    -- An ID of the topic that is not left there is nowhere.
    erased_Absent :
        (x : ℕ)
        → s.home x ≡ topic
        → Absent x (f (s.observers topic))
        → (t : ℕ) → Absent x (erased_lists t)
    erased_Absent x here off t =
        update_cases (Absent x) s.observers topic _ t (λ e. off)
          (λ ne. elsewhere x t (s.observers t) (λ q. ne (rw (← here) q)) (v.at_home t))

    inside-Inv : Inv n (record s { observers = erased_lists })
    inside-Inv = record {
      counted = v.counted;
      distinct = erased_Distinct;
      below = λ t. erased_All _ t (v.below t);
      at_home = λ t. erased_All _ t (v.at_home t);
      old = v.old;
      gone = λ y t w. erased_All _ t (v.gone y t w);
      unreached = v.unreached;
      erased_old = v.erased_old;
      erased = λ i y t xs e w. erased_All _ t (v.erased i y t xs e w);
    }

    erasing-Inv :
        (i : ℕ) (ids : List ℕ)
        → i < n
        → s.pc i ≡ idle
        → ((x : ℕ) → Within x ids → x < s.next_observer_id)
        → ((x t : ℕ) → Within x ids → Absent x (erased_lists t))
        → Inv n (record s { observers = erased_lists; pc = update s.pc i (waiting ids) })
    erasing-Inv i ids lt e known off = record {
      counted = moved_counted v i (waiting ids) lt s.active_dispatches (rw e refl);
      distinct = erased_Distinct;
      below = λ t. erased_All _ t (v.below t);
      at_home = λ t. erased_All _ t (v.at_home t);
      old = v.old;
      gone = λ y t w. erased_All _ t (v.gone y t w);
      unreached = moved_unreached v i (waiting ids) lt (λ y w. tt);
      erased_old = λ j y ys.
          update_cases (λ c. c ≡ waiting ys → Within y ys → y < s.next_observer_id) s.pc i
            (waiting ids) j (λ q w. rw (← same ys w) (known y)) (λ ne w. v.erased_old j y ys w);
      erased = λ j y t ys.
          update_cases (λ c. c ≡ waiting ys → Within y ys → Absent y (erased_lists t)) s.pc i
            (waiting ids) j (λ q w. rw (← same ys w) (off y t))
            (λ ne w h. erased_All _ t (v.erased j y t ys w h));
    }
      where
        same : (ys : List ℕ) → waiting ids ≡ waiting ys → ids ≡ ys
        same ys w = cc

  pub remove_inside-Inv :
      (x topic : ℕ)
      → Inv n (record s { observers = update s.observers topic (erase_id x (s.observers topic)) })
  remove_inside-Inv x topic =
      inside-Inv topic (erase_id x) (λ P. erase_id-All P x) (erase_id-Distinct x)

  pub remove_matching_inside-Inv :
      (topic : ℕ) (matches : ℕ → Bool)
      → Inv n (record s {
        observers = update s.observers topic (erase_matching matches (s.observers topic));
      })
  remove_matching_inside-Inv topic matches =
      inside-Inv topic (erase_matching matches) (λ P. erase_matching-All P matches)
        (erase_matching-Distinct matches)

  pub remove-Inv :
      (i x : ℕ)
      → i < n
      → s.pc i ≡ idle
      → x < s.next_observer_id
      → Inv n (record s {
        observers = update s.observers (s.home x) (erase_id x (s.observers (s.home x)));
        pc = update s.pc i (waiting (x ∷ []));
      })
  remove-Inv i x lt e known =
      erasing-Inv (s.home x) (erase_id x) (λ P. erase_id-All P x) (erase_id-Distinct x) i (x ∷ [])
        lt e (λ y w. elim w [ inl q ↦ rw (← q) known | inr w' ↦ absurd w' ])
        (λ y t w. elim w [
          | inl q ↦ rw (← q) (
              erased_Absent (s.home x) (erase_id x) (λ P. erase_id-All P x) (erase_id-Distinct x) x
                refl (erase_id-Absent x (s.observers (s.home x)) (v.distinct (s.home x))) t)
          | inr w' ↦ absurd w'
        ])

  pub remove_elsewhere-Inv :
      (i x topic : ℕ)
      → i < n
      → s.pc i ≡ idle
      → Inv n (record s {
        observers = update s.observers topic (erase_id x (s.observers topic));
        pc = update s.pc i (waiting []);
      })
  remove_elsewhere-Inv i x topic lt e =
      erasing-Inv topic (erase_id x) (λ P. erase_id-All P x) (erase_id-Distinct x) i [] lt e
        (λ y w. absurd w) (λ y t w. absurd w)

  pub remove_unresolved-Inv :
      (i : ℕ) → i < n → s.pc i ≡ idle → Inv n (record s { pc = update s.pc i (waiting []) })
  remove_unresolved-Inv i lt e = record {
    counted = moved_counted v i (waiting []) lt s.active_dispatches (rw e refl);
    distinct = v.distinct;
    below = v.below;
    at_home = v.at_home;
    old = v.old;
    gone = v.gone;
    unreached = moved_unreached v i (waiting []) lt (λ y w. tt);
    erased_old = λ j y ys.
        update_cases (λ c. c ≡ waiting ys → Within y ys → y < s.next_observer_id) s.pc i
          (waiting []) j (λ q w. rw (← nothing ys w) (λ h. absurd h))
          (λ ne w. v.erased_old j y ys w);
    erased = λ j y t ys.
        update_cases (λ c. c ≡ waiting ys → Within y ys → Absent y (s.observers t)) s.pc i
          (waiting []) j (λ q w. rw (← nothing ys w) (λ h. absurd h)) (λ ne w. v.erased j y t ys w);
  }
    where
      nothing : (ys : List ℕ) → waiting [] ≡ waiting ys → [] ≡ ys
      nothing ys w = cc

  pub remove_matching-Inv :
      (i topic : ℕ) (matches : ℕ → Bool)
      → i < n
      → s.pc i ≡ idle
      → Inv n (record s {
        observers = update s.observers topic (erase_matching matches (s.observers topic));
        pc = update s.pc i (waiting (matched matches (s.observers topic)));
      })
  remove_matching-Inv i topic matches lt e =
      let ids = matched matches (s.observers topic) in
      erasing-Inv topic (erase_matching matches) (λ P. erase_matching-All P matches)
        (erase_matching-Distinct matches) i ids lt e
        (λ y w.
          (matched_lem (λ z. z < s.next_observer_id) matches y (s.observers topic) (v.below topic)
            w).1)
        (λ y t w.
          let (on, here) =
            matched_lem (λ z. s.home z ≡ topic) matches y (s.observers topic) (v.at_home topic) w in
          erased_Absent topic (erase_matching matches) (λ P. erase_matching-All P matches)
            (erase_matching-Distinct matches) y here
            (erase_matching-left matches y (s.observers topic) on) t)
