-- ===== src/Tests/CenterFast.antt =====
-- src/messagecenter_fast.h: two observers of topic 3, one of them without a callback, on a ring of
-- two slots.
use message_center_cpp.Common.{
  ℕ, ◌≡◌, refl, true, false, Option, none, some, List, [], ◌∷◌, ◌++◌, arith,
}
use message_center_cpp.Mpmc
use message_center_cpp.Mpmc.{Ring, fill}
use message_center_cpp.Mpmc.Arith.{IsCapacity}
use message_center_cpp.Mpmc.Invariant.{init-Holds}
use message_center_cpp.PoolLockFree
use message_center_cpp.Mailbox.{Outside}
use message_center_cpp.CenterFast.{CenterFast, post, dispatch_loop, round, pending}
use message_center_cpp.CenterFast.Notices.{Notice, Holding, post-Holding}
use message_center_cpp.CenterFast.Worker.{all_calls_to, dispatch_loop_lem}

abbrev two : IsCapacity 2
two = record { bits = 1; low = omega arith; high = omega arith; power = refl }

abbrev listening : Ring (Option ℕ) → CenterFast
listening ring = record {
  queue = ring;
  message_pool = PoolLockFree.construct [] 4;
  messages =
      λ _. record { topic_id = 0; flags = 0; size = 0; inline_data = []; managed_data = none };
  topic_names = λ _. "";
  topic_map = [];
  next_topic_id = 4;
  observers = λ _.
      record { callback = none; user_data = none }
      ∷ record { callback = some 2; user_data = some 9 }
      ∷ [];
  posted = 0;
  dispatched = 0;
  live_blocks = 0;
  calls = [];
}

abbrev outside : Outside
outside = record { pool_failures = 0; ring_failures = 2; node = 8; payload = 5 }

abbrev idle : CenterFast
idle = listening (Mpmc.init none)

idle-Holding : Holding 2 0 idle [] [] []
unfolding PoolLockFree.construct PoolLockFree.preallocate
idle-Holding = record {
  messages = [];
  queued = record {
    ring = (0, init-Holds two none);
    chain = refl;
    alone = λ x. omega arith;
    stored = refl;
  };
  told = tt;
  clean = λ x e. refl;
  live = refl;
  counted = refl;
  word = omega arith;
}

abbrev notice : Notice
notice = record { topic_id = 3; bytes = 42 ∷ [] }

-- the centre after a post
abbrev posted :
    (c' : CenterFast) × (free' : List ℕ) × (nodes' : List ℕ) × (post 2 idle 3
        (some (42 ∷ []))
        1
        (some [])
        outside
      ≡ some (true, c'))
    × Holding 2 0 c' free' nodes' (notice ∷ [])
    × (c'.calls ≡ [])
    × (c'.observers ≡ idle.observers)
posted =
    post-Holding two idle-Holding 3 (42 ∷ []) [] outside (omega arith) (omega arith) (omega arith)
      (omega arith) refl refl

post-Holding_example :
    (c' : CenterFast) × (free' : List ℕ) × (nodes' : List ℕ) × (post 2 idle 3
        (some (42 ∷ []))
        1
        (some [])
        outside
      ≡ some (true, c'))
    × Holding 2 0 c' free' nodes' (notice ∷ [])
    × (c'.calls ≡ [])
    × (c'.observers ≡ idle.observers)
post-Holding_example =
    post-Holding two idle-Holding 3 (42 ∷ []) [] outside (omega arith) (omega arith) (omega arith)
      (omega arith) refl refl

dispatch_loop_lem_example :
    (c' : CenterFast) × (dispatch_loop 2 (outside ∷ []) (λ _. outside) 2 posted.0 ≡ some c')
    × (c'.calls ≡ posted.0.calls ++ all_calls_to posted.0.observers (notice ∷ []))
    × ((out : Outside) → round 2 c' out ≡ some (false, c'))
    × (pending c' ≡ 0)
    × (c'.live_blocks ≡ 0)
dispatch_loop_lem_example =
    dispatch_loop_lem two (outside ∷ []) (λ _. outside) 2 posted.0 posted.1 posted.2 (notice ∷ [])
      posted.4 (omega arith)
