-- ===== src/Payload/Lifetime.antt =====
-- How long a payload of src/payload_refcounted.h lives.
use message_center_cpp.Common.{
  ℕ, zero, suc, ◌+◌, ◌-◌, ◌%◌, ◌^◌, ◌≤◌, ◌<◌, ◌≡◌, ◌≢◌, refl, ap, ◌∙◌, Option, none, some, ◌>>=◌,
  List, length, arith, Option-cases,
}
use message_center_cpp.Payload.{
  Payload, Store, update, create, add_refs, release, releases, Guard, guard_move, guard_release,
  guard_destroy,
}

-- A payload with `n` references that are still to be released: none is left of it at 0.
abbrev pub with_refs : Payload → ℕ → Option Payload
with_refs v zero = none
with_refs v (suc n) = some (record v { ref_count = suc n })

pub same_refs : (v : Payload) (a b : ℕ) → a ≡ b → with_refs v a ≡ with_refs v b
same_refs v a b e = ap (with_refs v) e

-- `t` is `s` but for the payload at `p`, which has `n` references.
pub record Leaves (s : Store) (p : ℕ) (v : Payload) (n : ℕ) (t : Store) : Type 0 where
  pub at_p : t p ≡ with_refs v n
  pub elsewhere : (q : ℕ) → q ≢ p → t q ≡ s q

pub release_lem :
    (s : Store) (p n : ℕ) (v : Payload)
    → s p ≡ with_refs v (suc n)
    → n < 2 ^ 31
    → (t : Store) × (release s p ≡ some t) × Leaves s p v n t
unfolding release
release_lem s p zero v e small =
    rw e (update s p none, refl, record { at_p = ground arith; elsewhere = λ q ne. ground arith })
release_lem s p (suc n) v e small = rw e (
  update s p (some (record v { ref_count = (suc (suc n) + (2 ^ 32 - 1)) % 2 ^ 32 })),
  ground arith,
  record { at_p = ground arith; elsewhere = λ q ne. ground arith },
)

pub releases_lem :
    (s : Store) (p k n : ℕ) (v : Payload)
    → s p ≡ with_refs v (k + n)
    → k + n < 2 ^ 31
    → (t : Store) × (releases k s p ≡ some t) × Leaves s p v n t
unfolding releases
releases_lem s p zero n v e small =
    (s, refl, record { at_p = e ∙ same_refs v (0 + n) n (omega arith); elsewhere = λ q ne. refl })
releases_lem s p (suc k) n v e small =
    let (s1, e1, l1) =
      release_lem s p (k + n) v (e ∙ same_refs v (suc k + n) (suc (k + n)) (omega arith))
        (omega arith) in
    let (t, e2, l2) = releases_lem s1 p k n v l1.at_p (omega arith) in
    (
      t,
      rw e1 e2,
      record { at_p = l2.at_p; elsewhere = λ q ne. l2.elsewhere q ne ∙ l1.elsewhere q ne },
    )

releases-freed : (s : Store) (p k : ℕ) → s p ≡ none → 0 < k → releases k s p ≡ none
unfolding releases release
releases-freed s p zero e h = absurd (omega arith)
releases-freed s p (suc k) e h = rw e refl

releases_overrun :
    (s : Store) (p k n : ℕ) (v : Payload)
    → s p ≡ with_refs v n
    → n < 2 ^ 31
    → n < k
    → releases k s p ≡ none
unfolding releases
releases_overrun s p k zero v e small over = releases-freed s p k e (omega arith)
releases_overrun s p zero (suc n) v e small over = absurd (omega arith)
releases_overrun s p (suc k) (suc n) v e small over =
    let (s1, e1, l1) = release_lem s p n v e (omega arith) in
    rw e1 (releases_overrun s1 p k n v l1.at_p (omega arith) (omega arith))

module _ (s : Store) (p : ℕ) (bytes : List ℕ) where
  -- The payload that `create` makes; the count is that of `with_refs`.
  abbrev pub created : Payload
  created = record { ref_count = 1; size = length bytes; bytes = bytes }

  pub create-Leaves : Leaves s p created 1 (create s p bytes)
  unfolding create
  create-Leaves = record { at_p = ground arith; elsewhere = λ q ne. ground arith }

  pub made_for :
      (n : ℕ)
      → n < 2 ^ 31
      → (s' : Store) × (add_refs (create s p bytes) p n ≡ some s') × Leaves s p created (suc n) s'
  unfolding add_refs create
  made_for n small = (
    update (create s p bytes) p (some (record created { ref_count = (1 + n) % 2 ^ 32 })),
    ground arith,
    record { at_p = ground arith; elsewhere = λ q ne. ground arith },
  )

  -- A payload that is made for `n + 1` observers, with `n` references besides the first, is there
  -- with what is left of them after any number of releases up to `n + 1`, and with the last of
  -- these it is gone. No other payload changes.
  pub create_lifetime :
      (n k : ℕ)
      → n < 2 ^ 31 - 1
      → k ≤ n + 1
      → (s' t : Store) × (add_refs (create s p bytes) p n ≡ some s')
        × (releases k s' p ≡ some t)
        × Leaves s p created (n + 1 - k) t
  create_lifetime n k small le =
      let (s1, e1, l1) = made_for n (omega arith) in
      let (t, e2, l2) =
        releases_lem s1 p k (n + 1 - k) created
          (l1.at_p ∙ same_refs created (suc n) (k + (n + 1 - k)) (omega arith)) (omega arith) in
      (
        s1,
        t,
        e1,
        e2,
        record { at_p = l2.at_p; elsewhere = λ q ne. l2.elsewhere q ne ∙ l1.elsewhere q ne },
      )

  -- A payload that is made for `n + 1` observers and released more often than that is used after
  -- it has been freed.
  pub create_overrun :
      (n k : ℕ)
      → n < 2 ^ 31 - 1
      → n + 1 < k
      → (s' : Store) × (add_refs (create s p bytes) p n ≡ some s') × (releases k s' p ≡ none)
  create_overrun n k small over =
      let (s1, e1, l1) = made_for n (omega arith) in
      (s1, e1, releases_overrun s1 p k (suc n) created l1.at_p (omega arith) (omega arith))

-- A guard that is moved from before both are destroyed releases its payload once, as the one guard
-- would have, and a guard whose pointer was taken back releases nothing.
pub guard_destroy-guard_move :
    (g : Guard) (s : Store)
    → ((do s' ← guard_destroy (guard_move g).0 s; guard_destroy (guard_move g).1 s')
        ≡ guard_destroy g s)
      × (guard_destroy (guard_release g).1 s ≡ some s)
unfolding guard_destroy guard_move guard_release
guard_destroy-guard_move none s = (refl, refl)
guard_destroy-guard_move (some p) s = (ground (arith, Option-cases (release s p)), refl)
