-- ===== src/Tests/Registry.antt =====
-- The registries of the fast centre and of the queue with mutexes with some names.
use Prim.Native.String.{String}
use message_center_cpp.Common.{ℕ, suc, ◌≡◌, refl, none, some, [], ◌∷◌, arith}
use message_center_cpp.Common.Maps.{lookup, string_eq}
use message_center_cpp.Mpmc
use message_center_cpp.PoolLockFree
use message_center_cpp.CenterFast.{CenterFast}
use message_center_cpp.CenterFast
use message_center_cpp.EventQueue.Topics
use message_center_cpp.EventQueue.Topics.{resolve}
use message_center_cpp.EventQueue.Topics.Invariant.{init-IsValid}
use message_center_cpp.Registry.{register_all}
use message_center_cpp.Registry.Numbered.{start-Numbered}
use message_center_cpp.Registry.CenterFast.{fast_ids_stay, register_times, wrapped_id}
use message_center_cpp.Registry.CenterFast as Fast
use message_center_cpp.Registry.EventQueue.{topic_ids_stay}
use message_center_cpp.Registry.EventQueue as Queue

abbrev centre : ℕ → CenterFast
centre count = record {
  queue = Mpmc.init none;
  message_pool = PoolLockFree.construct [] 4;
  messages =
      λ _. record { topic_id = 0; flags = 0; size = 0; inline_data = []; managed_data = none };
  topic_names = λ _. "";
  topic_map = [];
  next_topic_id = count;
  observers = λ _. [];
  posted = 0;
  dispatched = 0;
  live_blocks = 0;
  calls = [];
}

fast_ids_stay_example :
    (Fast.resolve (register_all Fast.registry (centre 0) ("audio" ∷ "video" ∷ "audio" ∷ [])) "audio"
      ≡ some 0)
    × ((other : String)
        → Fast.resolve
            (register_all Fast.registry (centre 0) ("audio" ∷ "video" ∷ "audio" ∷ []))
            other
          ≡ some 0
        → other ≡ "audio")
unfolding CenterFast.register_topic lookup
fast_ids_stay_example =
    fast_ids_stay (centre 0) "audio" ("video" ∷ "audio" ∷ []) 0 (start-Numbered 1024 (λ _. ""))
      (omega arith) refl

-- "audio" has the ID 0, and no topic is left.
abbrev crowded : CenterFast
crowded = record (centre 1024) { topic_map = ("audio", 0) ∷ [] }

wrapped_id_example :
    let r = CenterFast.register_topic (register_times (suc 64511) crowded "video") "subtitles" in
    (r.0 ≡ 0)
    × (CenterFast.resolve_topic r.1 "subtitles" ≡ 0)
    × (CenterFast.resolve_topic r.1 "audio" ≡ 0)
unfolding lookup
wrapped_id_example =
    wrapped_id 64511 crowded "audio" "video" "subtitles" refl refl refl (omega arith) (omega arith)

topic_ids_stay_example :
    (Queue.given
        (resolve (register_all Queue.registry Topics.init ("audio" ∷ "video" ∷ [])) "audio")
      ≡ some 0)
    × ((other : String)
        → Queue.given
            (resolve (register_all Queue.registry Topics.init ("audio" ∷ "video" ∷ [])) other)
          ≡ some 0
        → other ≡ "audio")
unfolding Topics.register Topics.init lookup
topic_ids_stay_example = topic_ids_stay Topics.init "audio" ("video" ∷ []) 0 init-IsValid refl
