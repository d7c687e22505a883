-- ===== src/Batch/Flush.antt =====
-- What the buffer of src/eventqueue_batch.h holds back, and where it goes.
use message_center_cpp.Common.{
  ℕ, ◌+◌, ◌≤◌, ◌<◌, ◌≡◌, refl, sym, ap, subst, true, false, Option, none, some, List, [], ◌∷◌, ◌++◌,
  length, map, leb, ◌==◌, arith, ne→not_==, append-nil, append_assoc, length-append,
}
use message_center_cpp.Mpmc.Arith.{IsCapacity}
use message_center_cpp.Mpmc.Refine.{Contents, try_push-room}
use message_center_cpp.Mailbox.{Outside, reserve, write, enqueue}
use message_center_cpp.Message.Letters.{bytes_at}
use message_center_cpp.Message.Compose.{compose-Carries}
use message_center_cpp.Fast.{FastQueue}
use message_center_cpp.Batch.{batch_max_topics, flush_loop, flush_batch, post_batched}

-- `q` but for the ring of `q'`.
abbrev pub with_ring : FastQueue → FastQueue → FastQueue
with_ring q q' = record q { mailbox = record q.mailbox { queue = q'.mailbox.queue } }

module _ {cap : ℕ} (c : IsCapacity cap) (out : Outside) where
  flush_loop_lem :
      (batch : List ℕ) (q : FastQueue) (xs : List (Option ℕ))
      → Contents cap q.mailbox.queue xs
      → length xs + length batch ≤ cap
      → (q' : FastQueue) × (flush_loop cap out batch q ≡ some q')
        × Contents cap q'.mailbox.queue (xs ++ map some batch)
        × (q' ≡ with_ring q q')
  unfolding flush_loop enqueue
  flush_loop_lem [] q xs v room =
      (q, refl, subst (Contents cap q.mailbox.queue) (sym (append-nil xs)) v, refl)
  flush_loop_lem (node ∷ batch) q xs v room =
      let (ring, pushed, w) = try_push-room c out.ring_failures (some node) v (omega arith) in
      let (q', e, u, same) =
        flush_loop_lem batch (record q { mailbox = record q.mailbox { queue = ring } })
          (xs ++ some node ∷ []) w (omega (arith, length-append xs (some node ∷ []))) in
      (
        q',
        rw (pushed, e) refl,
        subst (Contents cap q'.mailbox.queue) (append_assoc xs (some node ∷ []) (map some batch)) u,
        same,
      )

  -- A flush of a buffer for which the ring has room ends, empties the buffer, and puts its messages
  -- behind those of the ring in their order; it changes nothing but the ring.
  pub flush_batch_lem :
      (batch : List ℕ) (q : FastQueue) (xs : List (Option ℕ))
      → Contents cap q.mailbox.queue xs
      → length xs + length batch ≤ cap
      → (q' : FastQueue) × (flush_batch cap out batch q ≡ some ([], q'))
        × Contents cap q'.mailbox.queue (xs ++ map some batch)
        × (q' ≡ with_ring q q')
  unfolding flush_batch
  flush_batch_lem batch q xs v room =
      let (q', e, u, same) = flush_loop_lem batch q xs v room in (q', rw e refl, u, same)

  -- A message that a thread has batched for the queue `a` is in no ring until the thread flushes:
  -- the ring of `a` stays as it was. Where the same thread then flushes through another queue `b`,
  -- the message goes into the ring of `b`, and its address is that of a node of the pool of `a`.
  pub post_batched-flush_batch_other :
      (a b : FastQueue) (topic_id : ℕ) (bytes : Option (List ℕ)) (xs : List (Option ℕ))
      → topic_id < batch_max_topics
      → 0 < length (a.topics topic_id)
      → length (a.topics topic_id) ≤ 16
      → a.payloads out.payload ≡ none
      → Contents cap b.mailbox.queue xs
      → length xs < cap
      → let node = (reserve a.mailbox out).0 in
        (a' : FastQueue) × (b' : FastQueue) × (post_batched cap a [] topic_id bytes
            (length (bytes_at bytes))
            out
          ≡ some (true, node ∷ [], a'))
        × (a'.mailbox.queue ≡ a.mailbox.queue)
        × (flush_batch cap out (node ∷ []) b ≡ some ([], b'))
        × Contents cap b'.mailbox.queue (xs ++ some node ∷ [])
        × (b'.mailbox.messages ≡ b.mailbox.messages)
  unfolding post_batched flush_batch reserve write
  post_batched-flush_batch_other a b topic_id bytes xs known some_observer few unused v room =
      let node = (reserve a.mailbox out).0 in
      let box = (reserve a.mailbox out).1 in
      let (m, s, composed, carries, own, others, at_payload) =
        compose-Carries a.payloads a.payloads (a.topics topic_id) topic_id out.payload
          (box.messages node) unused unused some_observer (omega arith) bytes in
      let (b', flushed, u, same) = flush_loop_lem (node ∷ []) b xs v (omega arith) in
      let in_range : leb batch_max_topics topic_id ≡ false = ground arith in
      let has_some : (length (a.topics topic_id) == 0) ≡ false = ne→not_== _ 0 (omega arith) in
      (
        record a { mailbox = write box node m; payloads = s },
        b',
        rw (in_range, has_some, composed) refl,
        refl,
        rw flushed refl,
        u,
        ap (λ (q : FastQueue). q.mailbox.messages) same,
      )
