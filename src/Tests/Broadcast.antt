-- ===== src/Tests/Broadcast.antt =====
-- src/eventqueue_broadcast.h: a payload of 49 bytes, posted for two observers and
-- dispatched to them, or to three.
use message_center_cpp.Common.{
  ℕ, ◌≡◌, refl, true, none, some, List, [], ◌∷◌, ◌++◌, map, arith, replicate,
}
use message_center_cpp.Mpmc
use message_center_cpp.Mpmc.Invariant.{init-Holds}
use message_center_cpp.PoolLockFree
use message_center_cpp.Payload.{Store}
use message_center_cpp.Mailbox.{Outside}
use message_center_cpp.Message.Letters.{Letter, all_calls}
use message_center_cpp.Fast
use message_center_cpp.Fast.Delivery.{Posted}
use message_center_cpp.Broadcast.{
  BroadcastMessage, BroadcastQueue, prepare, deliver, post, dispatch_all,
}
use message_center_cpp.Broadcast.Counts.{deliver-prepare_overrun}
use message_center_cpp.Broadcast.AsFast.{as_call, as_fast, as_answer, observers_of, post-as_fast}
use message_center_cpp.Broadcast.Delivery.{post_adds, dispatch_all_empties}
use message_center_cpp.Tests.Fast.{two}

abbrev no_payloads : Store
no_payloads = λ _. none

abbrev large : List ℕ
large = replicate 49 42

abbrev outside : Outside
outside = record { pool_failures = 0; ring_failures = 0; node = 8; payload = 5 }

abbrev stale : BroadcastMessage
stale = record {
  topic_id = 0;
  observer_count = 0;
  is_inline = true;
  payload_size = 0;
  managed = none;
  inline_data = [];
}

deliver-prepare_overrun_example :
    (m : BroadcastMessage) × (s : Store) × (prepare no_payloads 3 2 (some large) 49 outside stale
      ≡ some (m, s))
    × (deliver m (some (1 ∷ 2 ∷ 3 ∷ [])) s ≡ none)
deliver-prepare_overrun_example =
    deliver-prepare_overrun no_payloads 3 large outside stale (1 ∷ 2 ∷ 3 ∷ []) 2 (omega arith)
      (omega arith) (omega arith) (omega arith)

abbrev quiet : BroadcastQueue
quiet = record {
  mailbox = record {
    queue = Mpmc.init none;
    message_pool = PoolLockFree.construct (7 ∷ []) 4;
    messages = λ _. stale;
  };
  payloads = no_payloads;
  topic_names = λ _. "";
  topic_map = [];
  topic_count = 4;
  observers = λ _. some (1 ∷ 2 ∷ []);
  calls = [];
}

quiet-Posted : Posted 2 no_payloads (as_fast quiet) (7 ∷ []) [] []
unfolding PoolLockFree.construct PoolLockFree.preallocate PoolLockFree.push_free
    PoolLockFree.push_loop
quiet-Posted = record {
  messages = [];
  queued = record {
    ring = (0, init-Holds two none);
    chain = (refl, refl);
    alone = λ x. ground arith;
    stored = refl;
  };
  carried = tt;
  others = λ p a. refl;
}

post-as_fast_example :
    Fast.post 2 (as_fast quiet) 3 (some large) 49 outside
    ≡ as_answer (post 2 quiet 3 (some large) 49 outside)
post-as_fast_example = post-as_fast 2 quiet 3 (some large) 49 outside (omega arith)

abbrev letter : Letter
letter = record { topic_id = 3; bytes = large; observers = observers_of quiet.observers 3 }

-- the queue after a post
abbrev posted :
    (q' : BroadcastQueue) × (free' : List ℕ) × (nodes' : List ℕ) × (post 2 quiet 3
        (some large)
        49
        outside
      ≡ some (true, q'))
    × Posted 2 no_payloads (as_fast q') free' nodes' (letter ∷ [])
    × (map as_call q'.calls ≡ [])
posted =
    post_adds two quiet (7 ∷ []) [] [] 3 (some large) outside quiet-Posted (omega arith)
      (omega arith) refl refl refl

dispatch_all_empties_example :
    (q' : BroadcastQueue) × (dispatch_all 2 (λ _. outside) 2 0 posted.0 ≡ some (1, q'))
    × (map as_call q'.calls ≡ map as_call posted.0.calls ++ all_calls (letter ∷ []))
    × ((p : ℕ) → q'.payloads p ≡ none)
dispatch_all_empties_example =
    dispatch_all_empties two (λ _. outside) 2 posted.0 posted.1 posted.2 (letter ∷ []) posted.4
      (omega arith)
