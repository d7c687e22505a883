-- ===== src/Tests/Emulator.antt =====
-- src/eventqueue_emulator.h: a critical topic 0 and a normal topic 1, with two observers each, on
-- rings of two slots.
use message_center_cpp.Common.{ℕ, ◌≡◌, refl, true, none, some, [], ◌∷◌, ◌==◌, arith, if◌then◌else◌}
use message_center_cpp.Mpmc
use message_center_cpp.Mpmc.Invariant.{init-Holds}
use message_center_cpp.PoolLockFree
use message_center_cpp.Mailbox.{Mailbox}
use message_center_cpp.Message.Letters.{Letter, all_calls}
use message_center_cpp.Emulator.{
  TopicPriority, critical, normal, EmuFastMessage, Emulator, post, dispatch_priority,
  dispatch_ratio,
}
use message_center_cpp.Emulator.Letters.{FastMail, Nodes, Holding, After}
use message_center_cpp.Emulator.Delivery.{post_routes}
use message_center_cpp.Emulator.Drain.{dispatch_priority_lem}
use message_center_cpp.Emulator.Ratio.{dispatch_ratio_lem}
use message_center_cpp.Tests.Fast.{two, idle, nothing, observers, outside, idle-Mail}

abbrev fast_idle : Mailbox EmuFastMessage
fast_idle = record {
  queue = Mpmc.init none;
  message_pool = PoolLockFree.construct (7 ∷ []) 4;
  messages = λ _. record { topic_id = 0; payload_size = 0; observers = []; bytes = [] };
}

abbrev priority_of : ℕ → TopicPriority
priority_of t = if t == 0 then critical else normal

abbrev waiting : Emulator
waiting = record {
  fast = fast_idle;
  bulk = idle;
  payloads = nothing;
  topics = λ t. record { priority = priority_of t; observers = observers };
  topic_count = 2;
  calls = [];
}

abbrev nodes : Nodes
nodes = record { fast_free = 7 ∷ []; fast_nodes = []; bulk_free = 7 ∷ []; bulk_nodes = [] }

fast_idle-FastMail : FastMail 2 fast_idle (7 ∷ []) [] []
unfolding PoolLockFree.construct PoolLockFree.preallocate PoolLockFree.push_free
    PoolLockFree.push_loop
fast_idle-FastMail = record {
  messages = [];
  queued = record {
    ring = (0, init-Holds two none);
    chain = (refl, refl);
    alone = λ x. ground arith;
    stored = refl;
  };
  carried = tt;
}

waiting-Holding : Holding 2 2 nothing waiting nodes [] []
waiting-Holding = record { fast = fast_idle-FastMail; bulk = idle-Mail }

abbrev letter : ℕ → Letter
letter t = record { topic_id = t; bytes = 42 ∷ []; observers = observers }

-- after a post to each of the two topics
abbrev fast_posted :
    (e' : Emulator) × (post 2 2 waiting 0 (some (42 ∷ [])) 1 outside ≡ some (true, e'))
    × After 2 2 nothing waiting [] (letter 0 ∷ []) [] e'
fast_posted =
    post_routes two two waiting [] [] 0 (some (42 ∷ [])) outside waiting-Holding (omega arith)
      (omega arith) (omega arith) refl refl refl refl refl

abbrev bulk_posted :
    (e' : Emulator) × (post 2 2 waiting 1 (some (42 ∷ [])) 1 outside ≡ some (true, e'))
    × After 2 2 nothing waiting [] [] (letter 1 ∷ []) e'
bulk_posted =
    post_routes two two waiting [] [] 1 (some (42 ∷ [])) outside waiting-Holding (omega arith)
      (omega arith) (omega arith) refl refl refl refl refl

abbrev loaded : Emulator
loaded = record fast_posted.0 { bulk = bulk_posted.0.bulk; payloads = bulk_posted.0.payloads }

abbrev loaded_nodes : Nodes
loaded_nodes = record fast_posted.2.nodes {
  bulk_free = bulk_posted.2.nodes.bulk_free;
  bulk_nodes = bulk_posted.2.nodes.bulk_nodes;
}

loaded-Holding : Holding 2 2 nothing loaded loaded_nodes (letter 0 ∷ []) (letter 1 ∷ [])
loaded-Holding = record { fast = fast_posted.2.holds.fast; bulk = bulk_posted.2.holds.bulk }

post_routes_example :
    (e' : Emulator) × (post 2 2 waiting 0 (some (42 ∷ [])) 1 outside ≡ some (true, e'))
    × After 2 2 nothing waiting [] (letter 0 ∷ []) [] e'
post_routes_example =
    post_routes two two waiting [] [] 0 (some (42 ∷ [])) outside waiting-Holding (omega arith)
      (omega arith) (omega arith) refl refl refl refl refl

dispatch_priority_lem_example :
    (e' : Emulator) × (dispatch_priority 2 2 (λ _. outside) outside 2 loaded ≡ some (2, e'))
    × After 2 2 nothing loaded (all_calls (letter 0 ∷ letter 1 ∷ [])) [] [] e'
dispatch_priority_lem_example =
    dispatch_priority_lem two two (λ _. outside) outside 2 (letter 0 ∷ []) (letter 1 ∷ [])
      loaded-Holding (omega arith)

dispatch_ratio_lem_example :
    (e' : Emulator) × (dispatch_ratio 2 2 (λ _ _. outside) 0 3 0 0 loaded ≡ some (2, e'))
    × After 2 2 nothing loaded (all_calls (letter 1 ∷ letter 0 ∷ [])) [] [] e'
    × ((p : ℕ) → e'.payloads p ≡ none)
dispatch_ratio_lem_example =
    dispatch_ratio_lem two two (λ _ _. outside) 0 3 (letter 0 ∷ []) (letter 1 ∷ []) loaded-Holding
      (omega arith)
