-- ===== src/Tests/FastThreads.antt =====
-- src/eventqueue_fast.h on two threads: one posts 49 bytes, which do not fit into the message, the
-- other dispatches them to the one observer.
use message_center_cpp.Common.{
  ℕ, ◌≡◌, ◌⊎◌, refl, none, some, List, [], ◌∷◌, ◌++◌, map, replicate, arith,
}
use message_center_cpp.Mpmc
use message_center_cpp.Mpmc.{try_push, try_pop}
use message_center_cpp.PoolLockFree
use message_center_cpp.Payload
use message_center_cpp.Mailbox.{write, enqueue, receive}
use message_center_cpp.Message.{FastObserver, compose, make_payload, data_of, release_one}
use message_center_cpp.Message.Letters.{Letter, call_of, calls_of}
use message_center_cpp.Fast.Threads.{
  System, Reach, Begins, here, next, add_observer, begin, read, claimed, written, pushed, popped,
  called, released, idle, load_free, read_next, gain, popped_pool, fill, push, pop, call,
}
use message_center_cpp.Fast.Threads.Frame.{calls_at, works}
use message_center_cpp.Fast.Threads.Delivery.{
  IsSafe, delivered_once, no_use_after_free, payload_freed,
}
use message_center_cpp.Tests.Fast.{two, stale, nothing}

abbrev empty : System
empty = record {
  mailbox = record {
    queue = Mpmc.init none;
    message_pool = PoolLockFree.construct (7 ∷ []) 4;
    messages = λ _. stale;
  };
  payloads = nothing;
  topics = λ _. [];
  pc = λ _. idle;
  fresh = 8;
  sent = [];
  taken = 0;
  log = [];
}

empty-Begins : Begins 2 empty (7 ∷ [])
unfolding PoolLockFree.construct PoolLockFree.preallocate PoolLockFree.push_free
    PoolLockFree.push_loop
empty-Begins = record {
  ring = refl;
  pool = (refl, refl);
  alone = λ x. ground arith;
  known = λ x h. ground arith;
  no_payload = λ p. refl;
  no_observer = λ t. refl;
  all_idle = λ i. refl;
  nothing_sent = refl;
  nothing_taken = refl;
  no_call = refl;
}

abbrev observer : FastObserver
observer = record { callback = 1; user_data = some 9 }

abbrev bytes : List ℕ
bytes = replicate 49 7

abbrev letter : Letter
letter = record { topic_id = 3; bytes = bytes; observers = observer ∷ [] }

-- Thread 0 has posted the bytes, and thread 1 has popped the message.
abbrev received : (s : System) × Reach 2 s
unfolding PoolLockFree.construct PoolLockFree.preallocate PoolLockFree.push_free
    PoolLockFree.push_loop load_free read_next gain popped_pool fill compose make_payload write
    Payload.create push enqueue try_push Mpmc.push_loop pop receive try_pop Mpmc.pop_loop
    Mpmc.verdict Mpmc.init Mpmc.index Mpmc.fill
received = (
  _,
  next
      (next
        (next
          (next
            (next
              (next
                (next (here (7 ∷ []) empty-Begins)
                  (add_observer 3 observer (omega arith) (omega arith) (λ j. refl)))
                (begin 0 3 (some bytes) refl (omega arith) (omega arith) (λ j. refl)))
              (read 0 (observer ∷ []) 3 (some bytes) 7 refl))
            (claimed 0 (observer ∷ []) 3 (some bytes) 7 none refl refl))
          (written 0 7 (observer ∷ []) 3 (some bytes) _ _ refl refl))
        (pushed 0 0 7 letter _ refl refl))
      (popped 1 0 7 _ refl refl),
)

-- Thread 1 has called the observer and released the payload.
abbrev dispatched : (s : System) × Reach 2 s
unfolding PoolLockFree.construct PoolLockFree.preallocate PoolLockFree.push_free
    PoolLockFree.push_loop load_free read_next gain popped_pool fill compose make_payload write
    Payload.create push enqueue try_push Mpmc.push_loop pop receive try_pop Mpmc.pop_loop
    Mpmc.verdict Mpmc.init Mpmc.index Mpmc.fill call data_of release_one Payload.release
dispatched = (
  _,
  next (next received.1 (called 1 7 0 observer [] bytes refl refl)) (released 1 7 0 [] _ refl refl),
)

no_use_after_free_example : IsSafe received.0 (received.0.pc 1)
no_use_after_free_example = no_use_after_free two received.1 1

delivered_once_example :
    (rest : List FastObserver) × (calls_at 0 dispatched.0.log ++ map (call_of letter) rest
      ≡ calls_of letter)
    × ((rest ≡ []) ⊎ ((i : ℕ) × (works (dispatched.0.pc i) ≡ some 0)))
unfolding PoolLockFree.construct PoolLockFree.preallocate PoolLockFree.push_free
    PoolLockFree.push_loop load_free read_next gain popped_pool fill compose make_payload write
    Payload.create push enqueue try_push Mpmc.push_loop pop receive try_pop Mpmc.pop_loop
    Mpmc.verdict Mpmc.init Mpmc.index Mpmc.fill call data_of release_one Payload.release
delivered_once_example = delivered_once two dispatched.1 0 letter refl (omega arith)

payload_freed_example : dispatched.0.payloads 9 ≡ none
unfolding PoolLockFree.construct PoolLockFree.preallocate PoolLockFree.push_free
    PoolLockFree.push_loop load_free read_next gain popped_pool fill compose make_payload write
    Payload.create push enqueue try_push Mpmc.push_loop pop receive try_pop Mpmc.pop_loop
    Mpmc.verdict Mpmc.init Mpmc.index Mpmc.fill call data_of release_one Payload.release
payload_freed_example = payload_freed two dispatched.1 1 7 0 9 refl refl
