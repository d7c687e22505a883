-- ===== src/Registry/Broadcast.antt =====
-- The registry of src/eventqueue_broadcast.h.
use Prim.Native.String.{String}
use message_center_cpp.Common.{
  ℕ, ◌+◌, ◌-◌, ◌%◌, ◌^◌, ◌<◌, ◌≤◌, ◌≡◌, refl, sym, ap, ◌∙◌, true, false, Option, none, some, List,
  ◌∷◌, Option-cases, inl, inr, dec_lt, leb, arith, if◌then◌else◌, ◌==◌,
}
use message_center_cpp.Common.Maps.{lookup, string_eq}
use message_center_cpp.Broadcast.{
  BroadcastQueue, broadcast_max_topics, uint16_max, register_topic, resolve_topic,
}
use message_center_cpp.Registry.{Registry, register_all, register-keeps}
use message_center_cpp.Registry.Numbering.{Numbering, Registered, known, new, refused, registry_of}
use message_center_cpp.Registry.Numbered.{Numbered, added-Numbered, Numbered-injective}

-- UINT16_MAX stands for no ID.
abbrev pub given : ℕ → Option ℕ
given id = if id == uint16_max then none else some id

pub record IsValid (q : BroadcastQueue) : Type 0 where
  pub numbered : Numbered broadcast_max_topics q.topic_map q.topic_names q.topic_count
  pub bounded : q.topic_count ≤ broadcast_max_topics

given_lem : (id : ℕ) → id < broadcast_max_topics → given id ≡ some id
given_lem id h = ground arith

pub resolve_lem :
    (q : BroadcastQueue) (name : String)
    → IsValid q
    → given (resolve_topic q name) ≡ lookup name q.topic_map
unfolding resolve_topic
resolve_lem q name v = elim (Option-cases (lookup name q.topic_map)) [
  | inl e ↦
      let missing : resolve_topic q name ≡ uint16_max = rw (e, resolve_topic) refl in
      ap given missing ∙ sym e
  | inr (i, e) ↦
      let found : resolve_topic q name ≡ i = rw (e, resolve_topic) refl in
      ap given found ∙ given_lem i (v.numbered.below name i e).1 ∙ sym e
]

-- What `registerTopic` answers, with no ID for UINT16_MAX.
abbrev pub register : BroadcastQueue → String → Option ℕ × BroadcastQueue
register q name = let (id, q') = register_topic q name in (given id, q')

abbrev pub resolve : BroadcastQueue → String → Option ℕ
resolve q name = given (resolve_topic q name)

pub register_lem :
    (q : BroadcastQueue) (name : String)
    → IsValid q
    → Registered (λ (t : BroadcastQueue). t.topic_map) q name (register q name)
      × IsValid (register q name).1
unfolding register_topic
register_lem q name v = elim (Option-cases (lookup name q.topic_map)) [
  | inr (i, e) ↦
      let small = given_lem i (v.numbered.below name i e).1 in
      rw (e, register_topic, small) (known i e, v)
  | inl e ↦ elim (dec_lt q.topic_count broadcast_max_topics) [
    | yes h ↦
        let room : leb broadcast_max_topics q.topic_count ≡ false = ground arith in
        let up : (q.topic_count + 1) % 2 ^ 16 ≡ q.topic_count + 1 = omega arith in
        rw (e, register_topic, room, up, given_lem q.topic_count h)
          (
            new q.topic_count _ e refl,
            record { numbered = added-Numbered v.numbered name h; bounded = omega arith },
          )
    | no h ↦
        let none_left : leb broadcast_max_topics q.topic_count ≡ true = ground arith in
        let back : ((q.topic_count + 1) % 2 ^ 16 + (2 ^ 16 - 1)) % 2 ^ 16 ≡ q.topic_count =
          omega (arith, v.bounded) in
        rw (e, register_topic, none_left, back) (refused q e refl, v)
  ]
]

abbrev pub numbering : Numbering BroadcastQueue
numbering = record {
  topic_map = λ q. q.topic_map;
  register = register;
  resolve = resolve;
  Holds = λ k q. IsValid q;
  resolve_lem = λ k q name v. resolve_lem q name v;
  register-Registered = λ k q name v. (register_lem q name v).0;
  register-Holds = λ k q name v. (register_lem q name v).1;
  injective = λ k q a b i v. Numbered-injective v.numbered a b i;
}

abbrev pub registry : Registry BroadcastQueue
registry = registry_of numbering

-- The ID that `registerTopic` gives to a name is that of the name, and of no other, after any number
-- of further registrations.
pub broadcast_ids_stay :
    (q : BroadcastQueue) (name : String) (names : List String) (i : ℕ)
    → IsValid q
    → (register q name).0 ≡ some i
    → (resolve (register_all registry q (name ∷ names)) name ≡ some i)
      × ((other : String)
          → resolve (register_all registry q (name ∷ names)) other ≡ some i
          → other ≡ name)
broadcast_ids_stay q name names i v e = register-keeps registry name names q i v e
