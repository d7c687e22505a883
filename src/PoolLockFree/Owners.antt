-- ===== src/PoolLockFree/Owners.antt =====
-- The stack of src/objectpool_lockfree.h holds a list of nodes, and no node has two owners.
use message_center_cpp.Common.{
  ℕ, zero, suc, ◌+◌, ◌%◌, ◌^◌, ◌≤◌, ◌≡◌, refl, Option, none, some, List, [], ◌∷◌, length, count,
  without, count-without, length-without, arith, ltb, ◌&&◌, Bool-cases, inl, inr, ◌==◌,
  if◌then◌else◌,
}
use message_center_cpp.PoolLockFree.{
  Pool, update, push_loop, push_free, pop_loop, pop_free, construct, preallocate, acquire, release,
}

-- The nodes from a head on are those of the list.
abbrev pub Chain : (ℕ → Option ℕ) → Option ℕ → List ℕ → Type 0
Chain next head [] = head ≡ none
Chain next head (x ∷ xs) = (head ≡ some x) × Chain next (next x) xs

pub Chain-update :
    (next : ℕ → Option ℕ) (head : Option ℕ) (node : ℕ) (v : Option ℕ) (xs : List ℕ)
    → count node xs ≡ 0
    → Chain next head xs
    → Chain (update next node v) head xs
Chain-update next head node v [] out c = c
Chain-update next head node v (x ∷ xs) out c =
    let kept : update next node v x ≡ next x = ground arith in
    (c.0, rw kept (Chain-update next (next x) node v xs (ground arith) c.1))

Chain-unique :
    (next : ℕ → Option ℕ) (head : Option ℕ) (xs ys : List ℕ)
    → Chain next head xs
    → Chain next head ys
    → xs ≡ ys
Chain-unique next head [] [] c d = refl
Chain-unique next head [] (y ∷ ys) c d = ground arith
Chain-unique next head (x ∷ xs) [] c d = ground arith
Chain-unique next head (x ∷ xs) (y ∷ ys) c d =
    let same : x ≡ y = ground arith in
    ground (arith, Chain-unique next (next x) xs ys c.1 (rw same d.1))

push_loop_lem :
    (n : ℕ) (p : Pool) (node : ℕ) (xs : List ℕ)
    → count node xs ≡ 0
    → Chain p.next p.free_list xs
    → let p' = push_loop n p node p.free_list in
      Chain p'.next p'.free_list (node ∷ xs)
      × (p'.allocated ≡ p.allocated)
      × (p'.max_size ≡ p.max_size)
unfolding push_loop
push_loop_lem zero p node xs out c =
    let linked : update p.next node p.free_list node ≡ p.free_list = ground arith in
    ((refl, rw linked (Chain-update p.next p.free_list node p.free_list xs out c)), refl, refl)
push_loop_lem (suc n) p node xs out c =
    push_loop_lem n (record p { next = update p.next node p.free_list }) node xs out
      (Chain-update p.next p.free_list node p.free_list xs out c)

pop_loop_lem :
    (n : ℕ) (p : Pool) (x : ℕ)
    → p.free_list ≡ some x
    → pop_loop n p p.free_list ≡ (some x, record p { free_list = p.next x })
unfolding pop_loop
pop_loop_lem zero p x e = ground arith
pop_loop_lem (suc n) p x e = ground (arith, pop_loop_lem n p x e)

pop_loop-none : (n : ℕ) (p : Pool) → p.free_list ≡ none → pop_loop n p p.free_list ≡ (none, p)
unfolding pop_loop
pop_loop-none n p e = ground arith

-- What `acquire` takes from the list of free nodes, or from `new`.
pub acquire-Chain :
    (p : Pool) (n fresh : ℕ) (free : List ℕ)
    → Chain p.next p.free_list free
    → (free' : List ℕ) × Chain (acquire n p fresh).1.next (acquire n p fresh).1.free_list free'
      × ((x : ℕ)
          → count x free' + count x ((acquire n p fresh).0 ∷ [])
            ≡ count x free + (if length free == 0 then count x (fresh ∷ []) else 0))
unfolding acquire pop_free
acquire-Chain p n fresh [] c = rw (pop_loop-none n p c) ([], c, λ x. omega arith)
acquire-Chain p n fresh (y ∷ free) c = rw (pop_loop_lem n p y c.0) (free, c.1, λ x. ground arith)

-- `release` puts a node on the list, or deletes it.
pub release-Chain :
    (p : Pool) (n node : ℕ) (free : List ℕ)
    → count node free ≡ 0
    → Chain p.next p.free_list free
    → let p' = release n p (some node) in
      (free' : List ℕ) × Chain p'.next p'.free_list free'
      × ((x : ℕ) → count x free' ≤ count x (node ∷ free))
unfolding release push_free
release-Chain p n node free out c =
    elim (Bool-cases (ltb 0 p.max_size && ltb p.max_size p.allocated)) [
      | inl e ↦ rw e (free, c, λ x. omega arith)
      | inr e ↦ rw e (node ∷ free, (push_loop_lem n p node free out c).0, λ x. omega arith)
    ]

-- A pool and the objects that its clients hold.
pub record Shared : Type 0 where
  pub store : Pool
  pub in_use : List ℕ

-- What clients do, one call at a time: `new Node()` may return any address that is not that of a
-- live node.
pub data Step (s : Shared) : Shared → Type 0 where
  take :
      (spurious fresh : ℕ) (free : List ℕ)
      → Chain s.store.next s.store.free_list free
      → count fresh free ≡ 0
      → count fresh s.in_use ≡ 0
      → Step s (record {
        store = (acquire spurious s.store fresh).1;
        in_use = (acquire spurious s.store fresh).0 ∷ s.in_use;
      })
  give :
      (spurious obj : ℕ)
      → 1 ≤ count obj s.in_use
      → Step s
          (record { store = release spurious s.store (some obj); in_use = without obj s.in_use })

-- The states that clients bring a pool to that began with the nodes of `fresh`.
pub data Reach (fresh : List ℕ) (max_size : ℕ) : Shared → Type 0 where
  here : Reach fresh max_size (record { store = construct fresh max_size; in_use = [] })
  next : {s t : Shared} → Reach fresh max_size s → Step s t → Reach fresh max_size t

-- The stack holds `free`, no node is in it or in use twice, and the counter is the number of both.
pub record Sound (free : List ℕ) (s : Shared) : Type 0 where
  pub chain : Chain s.store.next s.store.free_list free
  pub alone : (x : ℕ) → count x free + count x s.in_use ≤ 1
  pub counted : s.store.allocated ≡ (length free + length s.in_use) % 2 ^ 64

take-Sound :
    (free : List ℕ) {s : Shared} (spurious fresh : ℕ)
    → count fresh free ≡ 0
    → count fresh s.in_use ≡ 0
    → Sound free s
    → (free' : List ℕ) × Sound free' (record {
      store = (acquire spurious s.store fresh).1;
      in_use = (acquire spurious s.store fresh).0 ∷ s.in_use;
    })
unfolding acquire pop_free
take-Sound [] {s} spurious fresh p q v = (
  [],
  rw (pop_loop-none spurious s.store v.chain) (record {
    chain = v.chain;
    alone = λ x. ground (arith, v.alone x);
    counted = ground (arith, v.counted);
  }),
)
take-Sound (x ∷ free) {s} spurious fresh p q v = (
  free,
  rw (pop_loop_lem spurious s.store x v.chain.0) (record {
    chain = v.chain.1;
    alone = λ y. ground (arith, v.alone y);
    counted = ground (arith, v.counted);
  }),
)

give-Sound :
    {free : List ℕ} {s : Shared} (spurious obj : ℕ)
    → 1 ≤ count obj s.in_use
    → Sound free s
    → (free' : List ℕ) × Sound free'
        (record { store = release spurious s.store (some obj); in_use = without obj s.in_use })
unfolding release push_free
give-Sound {free} {s} spurious obj p v =
    elim (Bool-cases (ltb 0 s.store.max_size && ltb s.store.max_size s.store.allocated)) [
      | inl e ↦ (
        free,
        rw e (record {
          chain = v.chain;
          alone = λ x. ground (arith, v.alone x, count-without obj x s.in_use);
          counted = ground (arith, v.counted, length-without obj s.in_use);
        }),
      )
      | inr e ↦ (
        obj ∷ free,
        rw e (record {
          chain = pushed.0;
          alone = λ x. ground (arith, v.alone x, count-without obj x s.in_use);
          counted = ground (arith, v.counted, length-without obj s.in_use, pushed.1);
        }),
      )
    ]
  where
    pushed :
        let p' = push_loop spurious s.store obj s.store.free_list in
        Chain p'.next p'.free_list (obj ∷ free)
        × (p'.allocated ≡ s.store.allocated)
        × (p'.max_size ≡ s.store.max_size)
    pushed = push_loop_lem spurious s.store obj free (omega (arith, v.alone obj)) v.chain

preallocate_lem :
    (p : Pool) (xs fresh : List ℕ)
    → ((x : ℕ) → count x fresh + count x xs ≤ 1)
    → Chain p.next p.free_list xs
    → p.allocated ≡ length xs % 2 ^ 64
    → (free : List ℕ) × Sound free (record { store = preallocate p fresh; in_use = [] })
unfolding preallocate push_free
preallocate_lem p xs [] once c e =
    (xs, record { chain = c; alone = λ x. ground (arith, once x); counted = ground arith })
preallocate_lem p xs (x ∷ fresh) once c e =
    let pushed = push_loop_lem 0 p x xs (ground (arith, once x)) c in
    preallocate_lem
      (record (push_free 0 p x) { allocated = ((push_free 0 p x).allocated + 1) % 2 ^ 64 }) (x ∷ xs)
      fresh (λ y. ground (arith, once y)) pushed.0 (ground (arith, pushed.1))

-- Whatever calls of `acquire` and `release` the clients make, one at a time: the free list is a
-- list of nodes without a cycle, no node is held twice or held and free at once, and the counter
-- is the number of live nodes.
pub Reach-Sound :
    {fresh : List ℕ} {max_size : ℕ} {s : Shared}
    → ((x : ℕ) → count x fresh ≤ 1)
    → Reach fresh max_size s
    → (free : List ℕ) × Sound free s
unfolding construct
Reach-Sound {fresh} {max_size} once here =
    preallocate_lem _ [] fresh (λ x. omega (arith, once x)) refl refl
Reach-Sound once (next r (take n new free c p q)) =
    let (xs, v) = Reach-Sound once r in
    take-Sound xs n new (rw (Chain-unique _ _ xs free v.chain c) p) q v
Reach-Sound once (next r (give n obj p)) = give-Sound n obj p (Reach-Sound once r).1
