-- ===== src/Pool/Owners.antt =====
-- Who owns an object of src/objectpool.h: the pool or one client, and never two.
use message_center_cpp.Common.{
  ℕ, ◌+◌, ◌-◌, ◌%◌, ◌^◌, ◌≤◌, ◌<◌, ◌≡◌, refl, some, List, [], ◌∷◌, length, count, without,
  count-without, length-without, arith, ap, ◌∙◌,
}
use message_center_cpp.Pool.{Pool, preallocate, construct, acquire, release, clear}

-- A pool and the objects that its clients hold.
pub record Shared : Type 0 where
  pub store : Pool
  pub in_use : List ℕ

-- What clients do: `take` gets an object, for which `new T()` may return any address that is not
-- that of a live object; `give` returns one that is held.
pub data Step (s : Shared) : Shared → Type 0 where
  take :
      (fresh : ℕ)
      → count fresh s.store.pool ≡ 0
      → count fresh s.in_use ≡ 0
      → Step s (record {
        store = (acquire s.store fresh).1;
        in_use = (acquire s.store fresh).0 ∷ s.in_use;
      })
  give :
      (obj : ℕ)
      → 1 ≤ count obj s.in_use
      → Step s (record { store = release s.store (some obj); in_use = without obj s.in_use })

-- The states that clients bring a pool of `max_size` to that began with the objects of `fresh`.
pub data Reach (fresh : List ℕ) (max_size : ℕ) : Shared → Type 0 where
  here : Reach fresh max_size (record { store = construct fresh max_size; in_use = [] })
  next : {s t : Shared} → Reach fresh max_size s → Step s t → Reach fresh max_size t

pub record Owned (initial max_size : ℕ) (s : Shared) : Type 0 where
  pub alone : (x : ℕ) → count x s.store.pool + count x s.in_use ≤ 1
  pub counted : s.store.allocated ≡ (length s.store.pool + length s.in_use) % 2 ^ 64
  pub kept_max : s.store.max_size ≡ max_size
  pub bounded : 0 < max_size → initial ≤ max_size → length s.store.pool ≤ max_size
  pub bounded_over : 0 < max_size → max_size ≤ initial → length s.store.pool ≤ initial

preallocate_lem :
    (p : Pool) (fresh : List ℕ)
    → p.allocated ≡ length p.pool % 2 ^ 64
    → let p' = preallocate p fresh in
      ((x : ℕ) → count x p'.pool ≡ count x p.pool + count x fresh)
      × (length p'.pool ≡ length p.pool + length fresh)
      × (p'.allocated ≡ length p'.pool % 2 ^ 64)
      × (p'.max_size ≡ p.max_size)
unfolding preallocate
preallocate_lem p [] e = (λ x. omega arith, omega arith, e, refl)
preallocate_lem p (x ∷ fresh) e =
    let p1 : Pool = record p { pool = x ∷ p.pool; allocated = (p.allocated + 1) % 2 ^ 64 } in
    let ih = preallocate_lem p1 fresh (ground arith) in
    (λ y. ground (arith, ih.0 y), ground (arith, ih), ih.2, ih.3)

construct_lem :
    (fresh : List ℕ) (max_size : ℕ)
    → let p = construct fresh max_size in
      ((x : ℕ) → count x p.pool ≡ count x fresh)
      × (length p.pool ≡ length fresh)
      × (p.allocated ≡ length p.pool % 2 ^ 64)
      × (p.max_size ≡ max_size)
unfolding construct
construct_lem fresh max_size =
    let ih =
      preallocate_lem (record { pool = []; max_size = max_size; allocated = 0; deleted = [] }) fresh
        refl in
    (λ x. ground (arith, ih.0 x), ground (arith, ih.1), ih.2, ih.3)

construct-Owned :
    (fresh : List ℕ) (max_size : ℕ)
    → ((x : ℕ) → count x fresh ≤ 1)
    → Owned (length fresh) max_size (record { store = construct fresh max_size; in_use = [] })
construct-Owned fresh max_size once =
    let pre = construct_lem fresh max_size in
    record {
      alone = λ x. omega (arith, once x, pre.0 x);
      counted = pre.2 ∙ ap (λ (t : ℕ). t % 2 ^ 64) (omega arith);
      kept_max = pre.3;
      bounded = λ h k. omega (arith, pre.1);
      bounded_over = λ h k. omega (arith, pre.1);
    }

module _ {initial max_size : ℕ} {s : Shared} (v : Owned initial max_size s) where
  take-Owned :
      (fresh : ℕ)
      → count fresh s.store.pool ≡ 0
      → count fresh s.in_use ≡ 0
      → Owned initial max_size (record {
        store = (acquire s.store fresh).1;
        in_use = (acquire s.store fresh).0 ∷ s.in_use;
      })
  unfolding acquire
  take-Owned fresh p q = record {
    alone = λ x. ground (arith, v.alone x);
    counted = ground (arith, v.counted);
    kept_max = ground (arith, v.kept_max);
    bounded = λ h k. ground (arith, v.bounded h k);
    bounded_over = λ h k. ground (arith, v.bounded_over h k);
  }

  give-Owned :
      (obj : ℕ)
      → 1 ≤ count obj s.in_use
      → Owned initial max_size
          (record { store = release s.store (some obj); in_use = without obj s.in_use })
  unfolding release
  give-Owned obj p = record {
    alone = λ x. ground (arith, v.alone x, count-without obj x s.in_use);
    counted = ground (arith, v.counted, length-without obj s.in_use);
    kept_max = ground (arith, v.kept_max);
    bounded = λ h k. ground (arith, v.bounded h k, v.kept_max);
    bounded_over = λ h k. ground (arith, v.bounded_over h k, v.kept_max);
  }

-- Whatever calls of `acquire` and `release` the clients make, no object is held twice or held and
-- in the pool at once, and the counter is the number of live objects. A pool with a limit keeps to
-- it, if the constructor made no more objects than that; otherwise it keeps to the number of those.
pub Reach-Owned :
    {fresh : List ℕ} {max_size : ℕ} {s : Shared}
    → ((x : ℕ) → count x fresh ≤ 1)
    → Reach fresh max_size s
    → Owned (length fresh) max_size s
Reach-Owned {fresh} {max_size} once here = construct-Owned fresh max_size once
Reach-Owned once (next r (take new p q)) = take-Owned (Reach-Owned once r) new p q
Reach-Owned once (next r (give obj p)) = give-Owned (Reach-Owned once r) obj p

abbrev pub release_all : Pool → List ℕ → Pool
release_all p [] = p
release_all p (x ∷ xs) = release_all (release p (some x)) xs

release_all_room :
    (p : Pool) (objs : List ℕ)
    → length p.pool + length objs ≤ p.max_size
    → let p' = release_all p objs in
      (length p'.pool ≡ length p.pool + length objs)
      × (p'.allocated ≡ p.allocated)
      × (p'.max_size ≡ p.max_size)
unfolding release
release_all_room p [] h = (omega arith, refl, refl)
release_all_room p (x ∷ xs) h = ground (arith, release_all_room (release p (some x)) xs)

-- `clear` counts the objects that are in use as gone: when the pool has filled up again, the next
-- release makes the counter wrap below 0.
pub clear-release_wraps :
    (p : Pool) (objs : List ℕ) (obj : ℕ)
    → length objs ≡ p.max_size
    → 0 < p.max_size
    → (release (release_all (clear p) objs) (some obj)).allocated ≡ 2 ^ 64 - 1
unfolding clear release
clear-release_wraps p objs obj full some_room =
    ground (arith, release_all_room (clear p) objs (omega arith))
