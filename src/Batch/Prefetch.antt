-- ===== src/Batch/Prefetch.antt =====
-- `dispatchBatch` of src/eventqueue_batch.h, which takes its messages off the ring before it calls
-- anybody.
use message_center_cpp.Common.{
  ℕ, zero, suc, ◌+◌, ◌≤◌, ◌≡◌, ◌≢◌, refl, sym, ap, subst, Option, none, some, List, [], ◌∷◌, ◌++◌,
  length, map, take, drop, min, length-take, count, All, arith,
}
use message_center_cpp.Mpmc.{Ring}
use message_center_cpp.Mpmc.Arith.{IsCapacity}
use message_center_cpp.Mpmc.Refine.{Contents, try_pop-cons, try_pop-nil}
use message_center_cpp.PoolLockFree
use message_center_cpp.PoolLockFree.Owners.{Chain, release-Chain}
use message_center_cpp.Payload.{Store}
use message_center_cpp.Mailbox.{Mailbox, Outside, receive}
use message_center_cpp.Mailbox.Queued.{Queued-length}
use message_center_cpp.Message.{FastMessage}
use message_center_cpp.Message.Letters.{Letter, all_calls, shared, call_all-Carries}
use message_center_cpp.Message.Mail.{AllCarry, AllCarry-length, Spent-rest}
use message_center_cpp.Fast.{FastQueue}
use message_center_cpp.Fast.Delivery.{Posted}
use message_center_cpp.Batch.{batch_size, prefetch, call_batch, recycle_batch, dispatch_batch}

prefetch_lem :
    {cap : ℕ} (c : IsCapacity cap) (outs : ℕ → Outside) (left : ℕ) (b : Mailbox FastMessage)
    (nodes : List ℕ)
    → Contents cap b.queue (map some nodes)
    → (ring : Ring (Option ℕ)) × (prefetch cap outs left b
        ≡ some (take left nodes, record b { queue = ring }))
      × Contents cap ring (map some (drop left nodes))
unfolding prefetch receive
prefetch_lem c outs zero b nodes v = (b.queue, refl, v)
prefetch_lem c outs (suc left) b [] v =
    (b.queue, rw (try_pop-nil c (outs left).ring_failures none v) refl, v)
prefetch_lem c outs (suc left) b (node ∷ nodes) v =
    let (ring, popped, w) = try_pop-cons c (outs left).ring_failures none v in
    let (ring', rest, u) = prefetch_lem c outs left (record b { queue = ring }) nodes w in
    (ring', rw (popped, rest) refl, u)

call_batch_lem :
    {before : Store} (messages : ℕ → FastMessage) (n : ℕ) (nodes : List ℕ) (s : Store)
    (ls : List Letter)
    → AllCarry before s (map messages nodes) ls
    → ((p : ℕ) → All (λ m. shared m ≢ some p) (map messages nodes) → s p ≡ before p)
    → (t : Store) × (call_batch messages (take n nodes) s ≡ some (all_calls (take n ls), t))
      × AllCarry before t (map messages (drop n nodes)) (drop n ls)
      × ((p : ℕ) → All (λ m. shared m ≢ some p) (map messages (drop n nodes)) → t p ≡ before p)
unfolding call_batch
call_batch_lem messages zero nodes s ls v others = (s, refl, v, others)
call_batch_lem messages (suc n) [] s [] v others = (s, refl, v, others)
call_batch_lem messages (suc n) [] s (l ∷ ls) v others = ground arith
call_batch_lem messages (suc n) (node ∷ nodes) s [] v others = ground arith
call_batch_lem messages (suc n) (node ∷ nodes) s (l ∷ ls) v others =
    let (t, called, spent) = call_all-Carries v.0 in
    let rest = Spent-rest (messages node) (map messages nodes) l ls v others spent in
    let (t', more, w, others') = call_batch_lem messages n nodes t ls rest.0 rest.1 in
    (t', rw (called, more) refl, w, others')

recycle_batch-Chain :
    (failures : ℕ) (batch : List ℕ) (p : PoolLockFree.Pool) (free : List ℕ)
    → ((x : ℕ) → count x free + count x batch ≤ 1)
    → Chain p.next p.free_list free
    → let p' = recycle_batch failures batch p in
      (free' : List ℕ) × Chain p'.next p'.free_list free'
      × ((x : ℕ) → count x free' ≤ count x free + count x batch)
unfolding recycle_batch
recycle_batch-Chain failures [] p free alone c = (free, c, λ x. omega arith)
recycle_batch-Chain failures (node ∷ batch) p free alone c =
    let absent : count node free ≡ 0 = ground (arith, alone node) in
    let (free1, c1, counts) = release-Chain p failures node free absent c in
    let (free2, c2, counts') =
      recycle_batch-Chain failures batch (PoolLockFree.release failures p (some node)) free1
        (λ x. ground (arith, alone x, counts x)) c1 in
    (free2, c2, λ x. ground (arith, counts x, counts' x))

count-take :
    (x n : ℕ) (nodes : List ℕ) → count x (take n nodes) + count x (drop n nodes) ≡ count x nodes
count-take x zero nodes = omega arith
count-take x (suc n) [] = refl
count-take x (suc n) (y ∷ nodes) = ground (arith, count-take x n nodes)

module _ {cap : ℕ} (c : IsCapacity cap) {before : Store} (outs : ℕ → Outside) (failures : ℕ) where
  -- `dispatchBatch` ends, answers how many of the waiting messages it could take within `maxCount`
  -- and 32, and has called the observers of these, message by message in the order of the posts, each
  -- once with the bytes of its message; the others wait as before, and the nodes of those that
  -- were taken are not among their nodes.
  pub dispatch_batch_lem :
      (max_count : ℕ) (q : FastQueue) (free nodes : List ℕ) (ls : List Letter)
      → Posted cap before q free nodes ls
      → let n = min max_count batch_size in
        (q' : FastQueue) × (free' : List ℕ) × (dispatch_batch cap outs failures max_count q
          ≡ some (min n (length ls), q'))
        × Posted cap before q' free' (drop n nodes) (drop n ls)
        × (q'.calls ≡ q.calls ++ all_calls (take n ls))
  unfolding dispatch_batch
  dispatch_batch_lem max_count q free nodes ls v =
      let n = min max_count batch_size in
      let stored = sym v.queued.stored in
      let (ring, taken, held) = prefetch_lem c outs n q.mailbox nodes v.queued.ring in
      let (t, called, carried, others) =
        call_batch_lem q.mailbox.messages n nodes q.payloads ls
          (subst (λ ms. AllCarry before q.payloads ms ls) stored v.carried)
          (subst (λ ms. (p : ℕ) → All (λ m. shared m ≢ some p) ms → q.payloads p ≡ before p) stored
            v.others) in
      let (free', chained, counts) =
        recycle_batch-Chain failures (take n nodes) q.mailbox.message_pool free
          (λ x. omega (arith, v.queued.alone x, count-take x n nodes)) v.queued.chain in
      let many : length (take n nodes) ≡ min n (length ls) = omega (
        arith,
        length-take n nodes,
        Queued-length c v.queued,
        AllCarry-length before q.payloads v.messages ls v.carried,
      ) in
      let q' : FastQueue = record q {
        mailbox = record q.mailbox {
          queue = ring;
          message_pool = recycle_batch failures (take n nodes) q.mailbox.message_pool;
        };
        payloads = t;
        calls = q.calls ++ all_calls (take n ls);
      } in
      (
        q',
        free',
        rw (taken, called) (ap (λ i. some (i, q')) many),
        record {
          messages = map q.mailbox.messages (drop n nodes);
          queued = record {
            ring = held;
            chain = chained;
            alone = λ x. omega (arith, v.queued.alone x, counts x, count-take x n nodes);
            stored = refl;
          };
          carried = carried;
          others = others;
        },
        refl,
      )
