-- ===== src/EventQueue/Topics/Lookup.antt =====
-- What `RegisterTopic`, `ResolveTopic` and `GetTopicByID` of src/eventqueue.cpp say of each other.
use Prim.Native.String.{String}
use text.Mathlib.TextEquality.{eq_iff}
use message_center_cpp.Common.{ℕ, ◌≤◌, ◌≡◌, refl, ◌≢◌, none, some, arith, ◌==◌, if◌then◌else◌}
use message_center_cpp.Common.Int.{ℤ, pos, negsuc, is_neg}
use message_center_cpp.Common.Maps.{lookup, lookup-insert, string_eq}
use message_center_cpp.EventQueue.Topics.{
  Topics, max_topics, resolve, add_topic, register, get_topic_by_id,
}
use message_center_cpp.EventQueue.Topics.Invariant.{
  IsValid, Registered, empty_name, known, added, full, register-Registered, register-IsValid,
}

resolve-lookup :
    (t : Topics) (name : String) {i : ℕ}
    → name ≢ ""
    → lookup name t.resolve_map ≡ some i
    → resolve t name ≡ pos i
unfolding resolve
resolve-lookup t name ne e = ground (arith, eq_iff name "")

resolve-inv :
    (t : Topics) (name : String) {i : ℕ}
    → resolve t name ≡ pos i
    → lookup name t.resolve_map ≡ some i
unfolding resolve
resolve-inv t name e = ground arith

resolve-missing :
    (t : Topics) (name : String) → lookup name t.resolve_map ≡ none → resolve t name ≡ negsuc 0
unfolding resolve
resolve-missing t name e = ground arith

-- Two names never have one ID.
pub resolve_injective :
    {t : Topics} (a b : String) {i : ℕ}
    → IsValid t
    → resolve t a ≡ pos i
    → resolve t b ≡ pos i
    → a ≡ b
resolve_injective {t} a b {i} v p q =
    ground (arith, v.named a i (resolve-inv t a p), v.named b i (resolve-inv t b q))

resolve-add_topic :
    (t : Topics) (name other : String)
    → other ≢ name
    → resolve (add_topic t name) other ≡ resolve t other
unfolding resolve add_topic
resolve-add_topic t name other ne =
    ground (arith, lookup-insert name other t.topic_max t.resolve_map, eq_iff name other)

lookup-add_topic :
    (t : Topics) (name : String) → lookup name (add_topic t name).resolve_map ≡ some t.topic_max
unfolding add_topic
lookup-add_topic t name =
    ground (arith, lookup-insert name name t.topic_max t.resolve_map, eq_iff name name)

-- After `RegisterTopic`, `ResolveTopic` finds the ID that it returned, or -1 where that is an
-- error code, and every other name resolves as before.
pub register-resolve :
    {t : Topics} (name : String)
    → IsValid t
    → let (i, t') = register t name in
      (resolve t' name ≡ (if is_neg i then negsuc 0 else i))
      × ((other : String) → other ≢ name → resolve t' other ≡ resolve t other)
register-resolve {t} name v = on (register-Registered t name)
  where
    on :
        {r : ℤ × Topics}
        → Registered t name r
        → (resolve r.1 name ≡ (if is_neg r.0 then negsuc 0 else r.0))
          × ((other : String) → other ≢ name → resolve r.1 other ≡ resolve t other)
    on (empty_name e) = (rw e (resolve-missing t "" v.unnamed), λ other ne. refl)
    on (known i e m) = (resolve-lookup t name e m, λ other ne. refl)
    on (added e m p) = (
      resolve-lookup (add_topic t name) name e (lookup-add_topic t name),
      λ other ne. resolve-add_topic t name other ne,
    )
    on (full e m p) = (resolve-missing t name m, λ other ne. refl)

get_topic_lem :
    {t : Topics} (name : String) (i : ℕ)
    → IsValid t
    → lookup name t.resolve_map ≡ some i
    → get_topic_by_id t (pos i) ≡ (if i == 0 then "" else name)
unfolding get_topic_by_id
get_topic_lem {t} name i v e = ground (arith, v.below name i e, v.named name i e, v.bounded)

-- `GetTopicByID` gives back the name that `RegisterTopic` put under an ID, except that it denies
-- the name of ID 0, which the first topic has.
pub register-get_topic_by_id :
    {t : Topics} (name : String) {i : ℕ}
    → IsValid t
    → (register t name).0 ≡ pos i
    → get_topic_by_id (register t name).1 (pos i) ≡ (if i == 0 then "" else name)
register-get_topic_by_id {t} name {i} v e =
    get_topic_lem name i (register-IsValid name v)
      (resolve-inv (register t name).1 name (rw e at (register-resolve name v).0))

register_again_empty : (t : Topics) (name : String) → name ≡ "" → register t name ≡ (negsuc 0, t)
unfolding register
register_again_empty t name e = ground (arith, eq_iff name "")

register_known :
    (t : Topics) (name : String) {i : ℕ}
    → name ≢ ""
    → lookup name t.resolve_map ≡ some i
    → register t name ≡ (pos i, t)
unfolding register
register_known t name ne e = ground (arith, eq_iff name "")

register_full :
    (t : Topics) (name : String)
    → name ≢ ""
    → lookup name t.resolve_map ≡ none
    → max_topics ≤ t.topic_max
    → register t name ≡ (negsuc 1, t)
unfolding register
register_full t name ne e p = ground (arith, eq_iff name "")

-- A second registration of a name changes nothing, whatever the first one did.
pub register_idem :
    {t : Topics} (name : String) → IsValid t → register (register t name).1 name ≡ register t name
register_idem {t} name v = on (register-Registered t name)
  where
    on : {r : ℤ × Topics} → Registered t name r → register r.1 name ≡ r
    on (empty_name e) = register_again_empty t name e
    on (known i e m) = register_known t name e m
    on (added e m p) = register_known (add_topic t name) name e (lookup-add_topic t name)
    on (full e m p) = register_full t name e m p
