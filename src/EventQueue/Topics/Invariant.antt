-- ===== src/EventQueue/Topics/Invariant.antt =====
-- The registry's invariant: the map and the array are inverse to one another below `topic_max`.
use Prim.Native.String.{String}
use text.Mathlib.Text.{◌==◌ as str_eq}
use text.Mathlib.TextEquality.{eq_iff}
use message_center_cpp.Common.{
  ℕ, ◌≤◌, ◌<◌, ◌≡◌, refl, ◌≢◌, false, none, some, arith, Option-cases, Bool-cases, inl, inr, lt→ltb,
  le→not_ltb, dec_lt,
}
use message_center_cpp.Common.Int.{ℤ, pos, negsuc}
use message_center_cpp.Common.Maps.{lookup, lookup-insert, string_eq}
use message_center_cpp.EventQueue.Topics.{
  Topics, max_topics, update, init, add_topic, register, clear,
}

pub record IsValid (t : Topics) : Type 0 where
  pub bounded : t.topic_max ≤ max_topics
  pub below : (name : String) (i : ℕ) → lookup name t.resolve_map ≡ some i → i < t.topic_max
  pub named : (name : String) (i : ℕ) → lookup name t.resolve_map ≡ some i → t.topics i ≡ name
  pub unnamed : lookup "" t.resolve_map ≡ none
  pub resolved : (i : ℕ) → i < t.topic_max → lookup (t.topics i) t.resolve_map ≡ some i
  pub blank : (i : ℕ) → t.topic_max ≤ i → t.topics i ≡ ""

-- The four ways through `RegisterTopic`.
pub data Registered (t : Topics) (name : String) : ℤ × Topics → Type 0 where
  empty_name : name ≡ "" → Registered t name (negsuc 0, t)
  known : (i : ℕ) → name ≢ "" → lookup name t.resolve_map ≡ some i → Registered t name (pos i, t)
  added :
      name ≢ ""
      → lookup name t.resolve_map ≡ none
      → t.topic_max < max_topics
      → Registered t name (pos t.topic_max, add_topic t name)
  full :
      name ≢ ""
      → lookup name t.resolve_map ≡ none
      → max_topics ≤ t.topic_max
      → Registered t name (negsuc 1, t)

pub register-Registered : (t : Topics) (name : String) → Registered t name (register t name)
unfolding register
register-Registered t name = elim (Bool-cases (str_eq name "")) [
  | inl e ↦ rw e (empty_name ((eq_iff name "").0 e))
  | inr e ↦ elim (Option-cases (lookup name t.resolve_map)) [
    | inr (i, m) ↦ rw (e, m) (known i (nonempty e) m)
    | inl m ↦ elim (dec_lt t.topic_max max_topics) [
      | yes p ↦ rw (e, m, lt→ltb _ _ p) (added (nonempty e) m p)
      | no p ↦
          rw (e, m, le→not_ltb t.topic_max max_topics (omega arith))
            (full (nonempty e) m (omega arith))
    ]
  ]
]
  where
    nonempty : str_eq name "" ≡ false → name ≢ ""
    nonempty e = ground (arith, eq_iff name "")

pub init-IsValid : IsValid init
unfolding init lookup
init-IsValid = record {
  bounded = omega arith;
  below = λ name i e. cc;
  named = λ name i e. cc;
  unnamed = refl;
  resolved = λ i p. absurd (omega arith);
  blank = λ i p. refl;
}

module _ {t : Topics} (v : IsValid t) (name : String) (given : name ≢ "")
    (new : lookup name t.resolve_map ≡ none) (room : t.topic_max < max_topics) where
  add_topic-IsValid : IsValid (add_topic t name)
  unfolding add_topic
  add_topic-IsValid = record {
    bounded = omega arith;
    below = λ n i e. ground (arith, lookup-insert name n t.topic_max t.resolve_map, v.below n i);
    named = λ n i e. ground (
      arith,
      lookup-insert name n t.topic_max t.resolve_map,
      eq_iff name n,
      v.below n i,
      v.named n i,
    );
    unnamed =
        ground (arith, lookup-insert name "" t.topic_max t.resolve_map, eq_iff name "", v.unnamed);
    resolved = λ i p. ground (
      arith,
      lookup-insert name (update t.topics t.topic_max name i) t.topic_max t.resolve_map,
      eq_iff name (update t.topics t.topic_max name i),
      v.resolved i,
    );
    blank = λ i p. ground (arith, v.blank i);
  }

-- `RegisterTopic` keeps the map and the array inverse to one another.
pub register-IsValid : {t : Topics} (name : String) → IsValid t → IsValid (register t name).1
register-IsValid {t} name v = keep (register-Registered t name)
  where
    keep : {r : ℤ × Topics} → Registered t name r → IsValid r.1
    keep (empty_name e) = v
    keep (known i e m) = v
    keep (added e m p) = add_topic-IsValid v name e m p
    keep (full e m p) = v

-- `ClearTopics` leaves the registry of a new queue.
pub clear-eq-init : (t : Topics) → clear t ≡ init
unfolding clear init
clear-eq-init t = refl
