-- ===== src/Mailbox/Queued.antt =====
-- A mailbox holds a list of messages, and its operations are those of that list.
use message_center_cpp.Common.{
  ℕ, suc, ◌+◌, ◌≤◌, ◌<◌, ◌≡◌, refl, sym, ap, ap₂, ◌∙◌, subst, true, false, Option, none, some, List,
  [], ◌∷◌, ◌++◌, map, length, count, arith, ℕ_discrete, ◌==◌, if◌then◌else◌,
}
use message_center_cpp.Mpmc.{Ring, try_push, try_pop}
use message_center_cpp.Mpmc.Arith.{IsCapacity}
use message_center_cpp.Mpmc.Refine.{Contents, try_push-room, try_pop-cons, try_pop-nil}
use message_center_cpp.PoolLockFree
use message_center_cpp.PoolLockFree.Owners.{Chain, acquire-Chain, release-Chain}
use message_center_cpp.Mailbox.{Mailbox, Outside, update, reserve, write, enqueue, receive, recycle}

-- The nodes of `free` are in the pool and those of `nodes` in the ring, none is in both or twice, and
-- the nodes in the ring hold the messages `ms`, oldest first.
pub record Queued {M : Type 0} (cap : ℕ) (b : Mailbox M) (free nodes : List ℕ) (ms : List M)
    : Type 0 where
  pub ring : Contents cap b.queue (map some nodes)
  pub chain : Chain b.message_pool.next b.message_pool.free_list free
  pub alone : (x : ℕ) → count x free + count x nodes ≤ 1
  pub stored : map b.messages nodes ≡ ms

pub map-update :
    {M : Type 0} (f : ℕ → M) (node : ℕ) (m : M) (nodes : List ℕ)
    → count node nodes ≡ 0
    → map (update f node m) nodes ≡ map f nodes
map-update f node m [] out = refl
map-update f node m (x ∷ nodes) out =
    let same : update f node m x ≡ f x = ground arith in
    rw (same, map-update f node m nodes (ground arith)) refl

pub map-append :
    {A B : Type 0} (f : A → B) (xs ys : List A) → map f (xs ++ ys) ≡ map f xs ++ map f ys
map-append f [] ys = refl
map-append f (x ∷ xs) ys = ap (λ t. f x ∷ t) (map-append f xs ys)

pub length-map : {A B : Type 0} (f : A → B) (xs : List A) → length (map f xs) ≡ length xs
length-map f [] = refl
length-map f (x ∷ xs) = ap suc (length-map f xs)

pub count-append : (x : ℕ) (xs ys : List ℕ) → count x (xs ++ ys) ≡ count x xs + count x ys
count-append x [] ys = omega arith
count-append x (y ∷ xs) ys = ground (arith, count-append x xs ys)

module _ {M : Type 0} {cap : ℕ} (c : IsCapacity cap) {b : Mailbox M} {free nodes : List ℕ}
    {ms : List M} (v : Queued cap b free nodes ms) where
  pub Queued-length : length nodes ≡ length ms
  Queued-length = sym (length-map b.messages nodes) ∙ ap length v.stored

  pub Queued-fits : length ms ≤ cap
  Queued-fits = omega (arith, v.ring.1.fits, length-map {B = Option ℕ} some nodes, Queued-length)

  alone_with :
      (node : ℕ)
      → count node free ≡ 0
      → count node nodes ≡ 0
      → (x : ℕ)
      → (count x free + (if length free == 0 then count x (node ∷ []) else 0)) + count x nodes ≤ 1
  alone_with node fresh new x = elim (ℕ_discrete x node) [
    | yes e ↦ rw e (ground (arith, fresh, new))
    | no ne ↦ ground (arith, v.alone x)
  ]

  -- A node of the pool, or a new one, is not in the ring; with the message `m` at it, and put into a
  -- ring with room, it is the last.
  pub push-Queued :
      (out : Outside)
      → length ms < cap
      → count out.node free ≡ 0
      → count out.node nodes ≡ 0
      → let (node, pool) = PoolLockFree.acquire out.pool_failures b.message_pool out.node in
        (ring : Ring (Option ℕ)) × (free' : List ℕ) × (try_push cap out.ring_failures b.queue
            (some node)
          ≡ some (true, ring))
        × (count node nodes ≡ 0)
        × ((m : M)
            → Queued cap
                (record { queue = ring; message_pool = pool; messages = update b.messages node m })
                free'
                (nodes ++ node ∷ [])
                (ms ++ m ∷ []))
  push-Queued out room fresh new =
      let (free', chained, counts) =
        acquire-Chain b.message_pool out.pool_failures out.node free v.chain in
      let node : ℕ = (PoolLockFree.acquire out.pool_failures b.message_pool out.node).0 in
      let here : count node (node ∷ []) ≡ 1 = ground arith in
      let absent : count node nodes ≡ 0 =
        omega (arith, here, counts node, alone_with out.node fresh new node) in
      let few : length (map some nodes) < cap =
        omega (arith, length-map {B = Option ℕ} some nodes, Queued-length, room) in
      let (ring, pushed, w) = try_push-room c out.ring_failures (some node) v.ring few in
      (
        ring,
        free',
        pushed,
        absent,
        λ m.
            let written : update b.messages node m node ≡ m = ground arith in
            record {
              ring = subst (Contents cap ring) (sym (map-append some nodes (node ∷ []))) w;
              chain = chained;
              alone = λ x. omega (
                arith,
                counts x,
                alone_with out.node fresh new x,
                count-append x nodes (node ∷ []),
              );
              stored =
                  map-append (update b.messages node m) nodes (node ∷ [])
                  ∙ ap₂ (λ xs x. xs ++ x ∷ [])
                      (map-update b.messages node m nodes absent ∙ v.stored) written;
            },
      )

  pub send_lem :
      (out : Outside) (m : M)
      → length ms < cap
      → count out.node free ≡ 0
      → count out.node nodes ≡ 0
      → let (node, b') = reserve b out in
        (b'' : Mailbox M) × (free' : List ℕ) × (nodes' : List ℕ) × (enqueue cap
            (write b' node m)
            node
            out
          ≡ some b'')
        × Queued cap b'' free' nodes' (ms ++ m ∷ [])
  unfolding reserve write enqueue
  send_lem out m room fresh new =
      let (ring, free', pushed, absent, queued) = push-Queued out room fresh new in
      (_, free', _, rw pushed refl, queued m)

  -- A message at a node that is not in the ring is no message of the mailbox.
  pub Queued-elsewhere :
      (node : ℕ) (m : M)
      → count node nodes ≡ 0
      → Queued cap (record b { messages = update b.messages node m }) free nodes ms
  Queued-elsewhere node m absent = record {
    ring = v.ring;
    chain = v.chain;
    alone = v.alone;
    stored = map-update b.messages node m nodes absent ∙ v.stored;
  }

module _ {M : Type 0} {cap : ℕ} (c : IsCapacity cap) where
  pub pop-nil :
      {b : Mailbox M} {free nodes : List ℕ}
      → Queued cap b free nodes []
      → (out : Outside) → try_pop cap out.ring_failures b.queue none ≡ some (false, none, b.queue)
  pop-nil {nodes = []} v out = try_pop-nil c out.ring_failures none v.ring
  pop-nil {nodes = x ∷ nodes} v out = absurd (omega (arith, Queued-length c v))

  pub receive-nil :
      {b : Mailbox M} {free nodes : List ℕ}
      → Queued cap b free nodes []
      → (out : Outside) → receive cap b out ≡ some (none, b)
  unfolding receive
  receive-nil v out = rw (pop-nil v out) refl

  -- What is popped is the node of the first message, and the node may go back to the pool.
  pub pop-Queued :
      {b : Mailbox M} {free nodes : List ℕ} {m : M} {ms : List M}
      → Queued cap b free nodes (m ∷ ms)
      → (out : Outside)
      → (node : ℕ) × (ring : Ring (Option ℕ)) × (free' : List ℕ) × (nodes' : List ℕ) × (try_pop cap
            out.ring_failures b.queue none
          ≡ some (true, some node, ring))
        × (b.messages node ≡ m)
        × (nodes ≡ node ∷ nodes')
        × (count node nodes' ≡ 0)
        × Queued cap
            (record b {
              queue = ring;
              message_pool = PoolLockFree.release out.pool_failures b.message_pool (some node);
            })
            free'
            nodes'
            ms
  pop-Queued {nodes = []} v out = absurd (omega (arith, Queued-length c v))
  pop-Queued {b = b} {free = free} {nodes = x ∷ nodes} {m = m} {ms = ms} v out =
      let (ring, popped, w) = try_pop-cons c out.ring_failures none v.ring in
      let out_of_pool : count x free ≡ 0 = ground (arith, v.alone x) in
      let (free', chained, counts) =
        release-Chain b.message_pool out.pool_failures x free out_of_pool v.chain in
      (
        x,
        ring,
        free',
        nodes,
        popped,
        ground (arith, v.stored),
        refl,
        ground (arith, v.alone x),
        record {
          ring = w;
          chain = chained;
          alone = λ y. ground (arith, v.alone y, counts y);
          stored = ground (arith, v.stored);
        },
      )

  pub receive-cons :
      {b : Mailbox M} {free nodes : List ℕ} {m : M} {ms : List M}
      → Queued cap b free nodes (m ∷ ms)
      → (out : Outside)
      → (node : ℕ) × (b' : Mailbox M) × (free' : List ℕ) × (nodes' : List ℕ) × (receive cap b out
          ≡ some (some node, b'))
        × (b'.messages node ≡ m)
        × Queued cap (recycle b' node out) free' nodes' ms
  unfolding receive recycle
  receive-cons {b = b} v out =
      let (node, ring, free', nodes', popped, at_node, split, absent, queued) = pop-Queued v out in
      (node, record b { queue = ring }, free', nodes', rw popped refl, at_node, queued)
