-- ===== src/EventQueue/Topics.antt =====
-- The topic registry of src/eventqueue.cpp: `m_topics`, `m_topicsResolveMap`, `m_topicMax`, which
-- one mutex guards, so that each operation is one step.
pub mod Invariant
pub mod Lookup
use Prim.Native.String.{String}
use text.Mathlib.Text.{◌==◌ as str_eq}
use message_center_cpp.Common.{
  ℕ, ◌+◌, Bool, true, false, ◌&&◌, Option, none, some, List, [], ◌∷◌, ltb, ◌==◌, if◌then◌else◌,
}
use message_center_cpp.Common.Int.{ℤ, pos, negsuc}
use message_center_cpp.Common.Maps.{lookup, insert, string_eq}

-- MAX_TOPICS
abbrev pub max_topics : ℕ
max_topics = 1024

-- `topics` is the array `m_topics`. An `int` that the registry stores starts at 0 and only grows,
-- so it is a natural number.
pub record Topics : Type 0 where
  pub topics : ℕ → String
  pub resolve_map : List (String × ℕ)
  pub topic_max : ℕ

abbrev pub update : (ℕ → String) → ℕ → String → ℕ → String
update f i v j = if i == j then v else f j

unfoldable pub init : Topics
init = record { topics = λ _. ""; resolve_map = []; topic_max = 0 }

-- `ResolveTopic`. `topic.length() > 0` is a comparison with the empty text.
unfoldable pub resolve : Topics → String → ℤ
resolve t topic =
    if str_eq topic ""
    then negsuc 0
    else elim (lookup topic t.resolve_map) [ none ↦ negsuc 0 | some id ↦ pos id ]

-- the branch of `RegisterTopic` that gives a new ID
unfoldable pub add_topic : Topics → String → Topics
add_topic t topic = record t {
  topics = update t.topics t.topic_max topic;
  resolve_map = insert topic t.topic_max t.resolve_map;
  topic_max = t.topic_max + 1;
}

unfoldable pub register : Topics → String → ℤ × Topics
register t topic = if str_eq topic "" then (negsuc 0, t) else elim (lookup topic t.resolve_map) [
  | some id ↦ (pos id, t)
  | none ↦
      if ltb t.topic_max max_topics then (pos t.topic_max, add_topic t topic) else (negsuc 1, t)
]

-- `GetTopicByID`: `id > 0 && static_cast<unsigned>(id) < MAX_TOPICS`
unfoldable pub get_topic_by_id : Topics → ℤ → String
get_topic_by_id t (pos id) = if ltb 0 id && ltb id max_topics then t.topics id else ""
get_topic_by_id t (negsuc n) = ""

-- `ClearTopics`
unfoldable pub clear : Topics → Topics
clear t = record { topics = λ _. ""; resolve_map = []; topic_max = 0 }
