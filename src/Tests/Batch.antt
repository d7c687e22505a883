-- ===== src/Tests/Batch.antt =====
-- src/eventqueue_batch.h: a buffer of two messages for an empty ring, and one that goes astray.
use message_center_cpp.Common.{ℕ, ◌≡◌, refl, true, none, some, List, [], ◌∷◌, ◌++◌, drop, arith}
use message_center_cpp.Mpmc.Invariant.{init-Holds}
use message_center_cpp.Mpmc.Refine.{Contents}
use message_center_cpp.Mailbox.{reserve}
use message_center_cpp.Fast.{FastQueue}
use message_center_cpp.Batch.{flush_batch, post_batched, dispatch_batch}
use message_center_cpp.Batch.Flush.{post_batched-flush_batch_other}
use message_center_cpp.Batch.Prefetch.{dispatch_batch_lem}
use message_center_cpp.Message.Letters.{all_calls}
use message_center_cpp.Fast.Delivery.{Posted}
use message_center_cpp.Tests.Fast.{two, listening, outside, nothing, letter, posted}

post_batched-flush_batch_other_example :
    let node = (reserve listening.mailbox outside).0 in
    (a' : FastQueue) × (b' : FastQueue) × (post_batched 2 listening [] 3 (some (42 ∷ [])) 1 outside
      ≡ some (true, node ∷ [], a'))
    × (a'.mailbox.queue ≡ listening.mailbox.queue)
    × (flush_batch 2 outside (node ∷ []) listening ≡ some ([], b'))
    × Contents 2 b'.mailbox.queue (some node ∷ [])
    × (b'.mailbox.messages ≡ listening.mailbox.messages)
post_batched-flush_batch_other_example =
    post_batched-flush_batch_other two outside listening listening 3 (some (42 ∷ [])) []
      (omega arith) (omega arith) (omega arith) refl (0, init-Holds two none) (omega arith)

dispatch_batch_lem_example :
    (q' : FastQueue) × (free' : List ℕ) × (dispatch_batch 2 (λ _. outside) 1 5 posted.0
      ≡ some (1, q'))
    × Posted 2 nothing q' free' (drop 5 posted.2) []
    × (q'.calls ≡ posted.0.calls ++ all_calls (letter ∷ []))
dispatch_batch_lem_example =
    dispatch_batch_lem two (λ _. outside) 1 5 posted.0 posted.1 posted.2 (letter ∷ []) posted.4
