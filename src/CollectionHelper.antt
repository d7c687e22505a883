-- ===== src/CollectionHelper.antt =====
-- include/collectionhelper.h: the helpers for maps and for collections of pointers. A `std::map` is an
-- association list.
use message_center_cpp.Common.{
  ℕ, ◌+◌, ◌<◌, ◌≤◌, ◌≡◌, refl, Bool, true, false, Option, none, some, List, [], ◌∷◌, length, ◌==◌,
  if◌then◌else◌, arith, Option-cases, inl, inr, ℕ_discrete, Bool-cases,
}
use message_center_cpp.Common.Maps.{Eq, lookup, insert, erase, lookup-insert, lookup-erase}
use message_center_cpp.Mailbox.{update}

module _ {ℓ κ} {K : Type ℓ} {V : Type κ} ⦃e : Eq K⦄ where
  -- `key_exists`
  unfoldable pub key_exists : List (K × V) → K → Bool
  key_exists m key = elim (lookup key m) [ none ↦ false | some v ↦ true ]

  -- `find_and_execute`, with functions that work on a state of the caller; the first gets the
  -- value by reference.
  unfoldable pub find_and_execute :
      {S : Type 0} → List (K × V) → K → (K → V → S → V × S) → (K → S → S) → S → List (K × V) × S
  find_and_execute m key found not_found s = elim (lookup key m) [
    | none ↦ (m, not_found key s)
    | some v ↦ let (v', s') = found key v s in (insert key v' m, s')
  ]

  -- What `find_and_execute` leaves in the map: the key has what the first function made of its value,
  -- if it was there, and every other key what it had.
  pub find_and_execute-lookup :
      {S : Type 0} (m : List (K × V)) (key j : K) (found : K → V → S → V × S)
      (not_found : K → S → S) (s : S)
      → lookup j (find_and_execute m key found not_found s).0 ≡ (elim (lookup key m) [
        | none ↦ lookup j m
        | some v ↦ if e.beq key j then some (found key v s).0 else lookup j m
      ])
  unfolding find_and_execute
  find_and_execute-lookup m key j found not_found s = elim (Option-cases (lookup key m)) [
    | inl h ↦ rw (h, find_and_execute) refl
    | inr (v, h) ↦ rw (h, find_and_execute) (lookup-insert key j (found key v s).0 m)
  ]

module _ {ℓ} {K : Type ℓ} {A : Type 0} ⦃e : Eq K⦄ where
  -- `erase_entry_if_empty`
  unfoldable pub erase_entry_if_empty : List (K × List A) → K → List (K × List A)
  erase_entry_if_empty m key = elim (lookup key m) [
    | none ↦ m
    | some xs ↦ if length xs == 0 then erase key m else m
  ]

  -- An entry is gone just where it was the one of the key and empty.
  pub erase_entry_if_empty-lookup :
      (m : List (K × List A)) (key j : K)
      → lookup j (erase_entry_if_empty m key) ≡ (elim (lookup key m) [
        | none ↦ lookup j m
        | some xs ↦
            if length xs == 0 then (if e.beq key j then none else lookup j m) else lookup j m
      ])
  unfolding erase_entry_if_empty
  erase_entry_if_empty-lookup m key j = elim (Option-cases (lookup key m)) [
    | inl h ↦ rw (h, erase_entry_if_empty) refl
    | inr (xs, h) ↦ elim (Bool-cases (length xs == 0)) [
      | inl z ↦ rw (h, erase_entry_if_empty, z) (lookup-erase key j m)
      | inr z ↦ rw (h, erase_entry_if_empty, z) refl
    ]
  ]

-- `deleter` on the pointers between `from` and `to`; `live` says which objects there are, and `none`
-- is a `delete` of one that is not there.
unfoldable pub deleter : List (Option ℕ) → (ℕ → Bool) → Option (ℕ → Bool)
deleter [] live = some live
deleter (none ∷ ptrs) live = deleter ptrs live
deleter (some p ∷ ptrs) live =
    let rest = deleter ptrs (update live p false) in if live p then rest else none

-- how often a pointer stands in the collection
abbrev pub times : ℕ → List (Option ℕ) → ℕ
times p [] = 0
times p (none ∷ ptrs) = times p ptrs
times p (some q ∷ ptrs) = (if q == p then 1 else 0) + times p ptrs

-- When every object of the collection is there and no pointer stands in it twice, `deleter` deletes
-- exactly these objects.
pub deleter_lem :
    (ptrs : List (Option ℕ)) (live : ℕ → Bool)
    → ((p : ℕ) → times p ptrs ≤ 1)
    → ((p : ℕ) → 0 < times p ptrs → live p ≡ true)
    → (left : ℕ → Bool) × (deleter ptrs live ≡ some left)
      × ((p : ℕ) → left p ≡ (if times p ptrs == 0 then live p else false))
unfolding deleter
deleter_lem [] live once there = (live, refl, λ p. refl)
deleter_lem (none ∷ ptrs) live once there = deleter_lem ptrs live once there
deleter_lem (some q ∷ ptrs) live once there =
    let alone : times q ptrs ≡ 0 = ground (arith, once q) in
    let here : live q ≡ true = there q (ground arith) in
    let (left, e, after) =
      deleter_lem ptrs (update live q false) (λ p. ground (arith, once p))
        (λ p h. ground (arith, there p, h, alone)) in
    (left, rw (here, e) refl, λ p. ground (arith, after p))

-- A pointer to an object that is not there is deleted all the same, and so is one that stands in the
-- collection a second time.
pub deleter_dead :
    (q : ℕ) (ptrs : List (Option ℕ)) (live : ℕ → Bool)
    → live q ≡ false
    → 0 < times q ptrs
    → deleter ptrs live ≡ none
unfolding deleter
deleter_dead q [] live dead h = absurd (omega arith)
deleter_dead q (none ∷ rest) live dead h = deleter_dead q rest live dead h
deleter_dead q (some p ∷ rest) live dead h = elim (ℕ_discrete p q) [
  | yes e ↦ ground (arith, e, dead)
  | no ne ↦ elim (Bool-cases (live p)) [
    | inl l ↦ rw l (deleter_dead q rest (update live p false) (ground arith) (ground (arith, h)))
    | inr l ↦ rw l refl
  ]
]
