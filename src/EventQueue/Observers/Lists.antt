-- ===== src/EventQueue/Observers/Lists.antt =====
-- The two erasing loops of src/eventqueue.cpp on a topic's vector.
use mathlib.Core.List.{Perm, perm_middle}
use mathlib.Core.List.Perm
use message_center_cpp.Common.{
  ℕ, ◌+◌, ◌<◌, ◌≡◌, refl, ◌≢◌, Bool, true, false, List, [], ◌∷◌, ◌++◌, All, All-append, arith, sym,
  ℕ_discrete, Bool-cases, inl, inr,
}
use message_center_cpp.EventQueue.Types.{ObserverDescriptor}
use message_center_cpp.EventQueue.Observers.{erase_all, erase_first, has_id}

module _ (matches : ObserverDescriptor → Bool) where
  -- What stays does not match, what is deleted does, and together they are the whole vector.
  pub erase_all_kept :
      (ds : List ObserverDescriptor) → All (λ d. matches d ≡ false) (erase_all matches ds).0
  unfolding erase_all
  erase_all_kept [] = tt
  erase_all_kept (d ∷ ds) = ground (arith, erase_all_kept ds)

  pub erase_all_gone :
      (ds : List ObserverDescriptor) → All (λ d. matches d ≡ true) (erase_all matches ds).1
  unfolding erase_all
  erase_all_gone [] = tt
  erase_all_gone (d ∷ ds) = ground (arith, erase_all_gone ds)

  pub erase_all_perm :
      (ds : List ObserverDescriptor)
      → Perm ds ((erase_all matches ds).0 ++ (erase_all matches ds).1)
  unfolding erase_all
  erase_all_perm [] = Perm.nil
  erase_all_perm (d ∷ ds) = elim (Bool-cases (matches d)) [
    | inl hit ↦ rw hit (Perm.trans (Perm.cons d (erase_all_perm ds)) (Perm.symm (perm_middle _ _)))
    | inr miss ↦ rw miss (Perm.cons d (erase_all_perm ds))
  ]

  -- What all descriptors satisfy, those that stay do.
  pub erase_all-All :
      (P : ObserverDescriptor → Type 0) (ds : List ObserverDescriptor)
      → All P ds
      → All P (erase_all matches ds).0
  unfolding erase_all
  erase_all-All P [] h = tt
  erase_all-All P (d ∷ ds) h = elim (Bool-cases (matches d)) [
    | inl hit ↦ rw hit (erase_all-All P ds h.1)
    | inr miss ↦ rw miss (h.0, erase_all-All P ds h.1)
  ]

  -- Where nothing matches, the loop changes nothing.
  pub erase_all_none :
      (ds : List ObserverDescriptor)
      → All (λ d. matches d ≡ false) ds
      → erase_all matches ds ≡ (ds, [])
  unfolding erase_all
  erase_all_none [] h = refl
  erase_all_none (d ∷ ds) h = ground (arith, erase_all_none ds h.1)

-- No two descriptors have one ID.
abbrev pub Unique : List ObserverDescriptor → Type 0
Unique [] = Unit {0}
Unique (d ∷ ds) = All (λ e. e.observer_id ≢ d.observer_id) ds × Unique ds

pub erase_all-Unique :
    (matches : ObserverDescriptor → Bool) (ds : List ObserverDescriptor)
    → Unique ds
    → Unique (erase_all matches ds).0
unfolding erase_all
erase_all-Unique matches [] u = tt
erase_all-Unique matches (d ∷ ds) u = elim (Bool-cases (matches d)) [
  | inl hit ↦ rw hit (erase_all-Unique matches ds u.1)
  | inr miss ↦ rw miss (erase_all-All matches _ ds u.0, erase_all-Unique matches ds u.1)
]

-- An ID that no descriptor has matches none.
pub misses :
    (observer_id : ℕ) (ds : List ObserverDescriptor)
    → All (λ e. e.observer_id ≢ observer_id) ds
    → All (λ e. has_id observer_id e ≡ false) ds
misses observer_id [] h = tt
misses observer_id (d ∷ ds) h = (ground (arith, h.0), misses observer_id ds h.1)

-- `RemoveObserverById` may stop at the first match: where IDs are unique, going on to the end of
-- the vector would do the same.
pub erase_first-eq-erase_all :
    (observer_id : ℕ) (ds : List ObserverDescriptor)
    → Unique ds
    → erase_first (has_id observer_id) ds ≡ erase_all (has_id observer_id) ds
unfolding erase_first erase_all
erase_first-eq-erase_all observer_id [] u = refl
erase_first-eq-erase_all observer_id (d ∷ ds) u = elim (ℕ_discrete d.observer_id observer_id) [
  | yes e ↦
      ground (arith, erase_all_none (has_id observer_id) ds (misses observer_id ds (rw e at u.0)))
  | no ne ↦ ground (arith, erase_first-eq-erase_all observer_id ds u.1)
]

Unique-snoc :
    (ds : List ObserverDescriptor) (d : ObserverDescriptor)
    → Unique ds
    → All (λ e. e.observer_id ≢ d.observer_id) ds
    → Unique (ds ++ d ∷ [])
Unique-snoc [] d u h = (tt, tt)
Unique-snoc (e ∷ ds) d u h =
    (All-append _ ds (d ∷ []) u.0 (λ q. h.0 (sym q), tt), Unique-snoc ds d u.1 h.1)

abbrev pub Below : ℕ → List ObserverDescriptor → Type 0
Below n = All (λ d. d.observer_id < n)

pub Below-ne : (n : ℕ) (ds : List ObserverDescriptor) → Below n ds → All (λ e. e.observer_id ≢ n) ds
Below-ne n [] h = tt
Below-ne n (d ∷ ds) h = (omega arith, Below-ne n ds h.1)

pub Below-suc : (n : ℕ) (ds : List ObserverDescriptor) → Below n ds → Below (n + 1) ds
Below-suc n [] h = tt
Below-suc n (d ∷ ds) h = (omega arith, Below-suc n ds h.1)

-- A descriptor under a fresh ID keeps the IDs unique and below the next one.
pub fresh_last :
    (n : ℕ) (ds : List ObserverDescriptor) (d : ObserverDescriptor)
    → d.observer_id ≡ n
    → Below n ds × Unique ds
    → Below (n + 1) (ds ++ d ∷ []) × Unique (ds ++ d ∷ [])
fresh_last n ds d e (b, u) = (
  All-append _ ds (d ∷ []) (Below-suc n ds b) (omega arith, tt),
  Unique-snoc ds d u (rw e (Below-ne n ds b)),
)

-- Erasing the ID of the last descriptor, which no other has, takes that descriptor off.
pub erase_first_last :
    (ds : List ObserverDescriptor) (d : ObserverDescriptor)
    → All (λ e. e.observer_id ≢ d.observer_id) ds
    → erase_first (has_id d.observer_id) (ds ++ d ∷ []) ≡ (ds, d ∷ [])
unfolding erase_first
erase_first_last [] d h = ground arith
erase_first_last (e ∷ ds) d h = ground (arith, erase_first_last ds d h.1, h.0)
