-- ===== src/Tests/Fast.antt =====
-- src/eventqueue_fast.h: two observers of topic 3 and a payload of one byte, on a ring of two slots.
use message_center_cpp.Common.{ℕ, ◌≡◌, refl, true, none, some, List, [], ◌∷◌, ◌++◌, arith}
use message_center_cpp.Mpmc
use message_center_cpp.Mpmc.Arith.{IsCapacity}
use message_center_cpp.Mpmc.Invariant.{init-Holds}
use message_center_cpp.PoolLockFree
use message_center_cpp.Payload.{Store}
use message_center_cpp.Mailbox.{Mailbox, Outside}
use message_center_cpp.Message.{FastObserver, FastMessage}
use message_center_cpp.Message.Letters.{Letter, all_calls}
use message_center_cpp.Message.Mail.{Mail}
use message_center_cpp.Fast.{FastQueue, post, dispatch_all}
use message_center_cpp.Fast.Delivery.{Posted, post_refines}
use message_center_cpp.Fast.Loops.{dispatch_all_drains}

abbrev pub two : IsCapacity 2
two = record { bits = 1; low = omega arith; high = omega arith; power = refl }

abbrev pub stale : FastMessage
stale = record {
  topic_id = 0;
  is_inline = true;
  payload_size = 0;
  observers = [];
  managed = none;
  inline_data = [];
}

abbrev pub observers : List FastObserver
observers =
    record { callback = 1; user_data = none } ∷ record { callback = 2; user_data = some 9 } ∷ []

abbrev pub idle : Mailbox FastMessage
idle = record {
  queue = Mpmc.init none;
  message_pool = PoolLockFree.construct (7 ∷ []) 4;
  messages = λ _. stale;
}

abbrev pub nothing : Store
nothing = λ _. none

abbrev pub listening : FastQueue
listening = record {
  mailbox = idle;
  payloads = nothing;
  topics = λ _. observers;
  topic_count = 4;
  calls = [];
}

abbrev pub outside : Outside
outside = record { pool_failures = 0; ring_failures = 2; node = 8; payload = 5 }

pub idle-Mail : Mail 2 nothing idle nothing (7 ∷ []) [] []
unfolding PoolLockFree.construct PoolLockFree.preallocate PoolLockFree.push_free
    PoolLockFree.push_loop
idle-Mail = record {
  messages = [];
  queued = record {
    ring = (0, init-Holds two none);
    chain = (refl, refl);
    alone = λ x. ground arith;
    stored = refl;
  };
  carried = tt;
  others = λ p a. refl;
}

abbrev pub letter : Letter
letter = record { topic_id = 3; bytes = 42 ∷ []; observers = observers }

post_refines_example :
    (q' : FastQueue) × (free' : List ℕ) × (nodes' : List ℕ) × (post 2 listening 3
        (some (42 ∷ []))
        1
        outside
      ≡ some (true, q'))
    × Posted 2 nothing q' free' nodes' (letter ∷ [])
    × (q'.calls ≡ [])
    × (q'.topics ≡ listening.topics)
post_refines_example =
    post_refines two listening [] 3 (some (42 ∷ [])) outside idle-Mail (omega arith) (omega arith)
      refl refl refl

-- the queue after a post
abbrev pub posted :
    (q' : FastQueue) × (free' : List ℕ) × (nodes' : List ℕ) × (post 2 listening 3
        (some (42 ∷ []))
        1
        outside
      ≡ some (true, q'))
    × Posted 2 nothing q' free' nodes' (letter ∷ [])
    × (q'.calls ≡ [])
    × (q'.topics ≡ listening.topics)
posted =
    post_refines two listening [] 3 (some (42 ∷ [])) outside idle-Mail (omega arith) (omega arith)
      refl refl refl

dispatch_all_drains_example :
    (q' : FastQueue) × (free' : List ℕ) × (nodes' : List ℕ) × (dispatch_all 2
        (λ _. outside)
        2
        0
        posted.0
      ≡ some (1, q'))
    × Posted 2 nothing q' free' nodes' []
    × (q'.calls ≡ posted.0.calls ++ all_calls (letter ∷ []))
    × ((p : ℕ) → q'.payloads p ≡ none)
dispatch_all_drains_example =
    dispatch_all_drains two (λ _. outside) 2 posted.0 posted.1 posted.2 (letter ∷ []) posted.4
      (omega arith)
