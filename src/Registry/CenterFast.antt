-- ===== src/Registry/CenterFast.antt =====
-- The registry of src/messagecenter_fast.h, whose counter goes on where no topic is left.
use Prim.Native.String.{String}
use text.Mathlib.TextEquality.{eq_iff}
use message_center_cpp.Common.{
  ℕ, zero, suc, ◌+◌, ◌%◌, ◌^◌, ◌<◌, ◌≤◌, ◌≡◌, refl, sym, ap, subst, ◌∙◌, true, false, Option, none,
  some, List, ◌∷◌, length, Option-cases, inl, inr, dec_lt, leb, arith, if◌then◌else◌, ◌==◌,
}
use message_center_cpp.Common.Maps.{lookup, lookup-insert, string_eq}
use message_center_cpp.CenterFast.{
  CenterFast, fast_max_topics, no_topic, register_topic, resolve_topic,
}
use message_center_cpp.Registry.{Registry, register_all, register-keeps}
use message_center_cpp.Registry.Numbering.{Numbering, Registered, known, new, refused, registry_of}
use message_center_cpp.Registry.Numbered.{
  Numbered, added-Numbered, wider-Numbered, Numbered-injective,
}

-- UINT16_MAX stands for no ID.
abbrev pub given : ℕ → Option ℕ
given id = if id == no_topic then none else some id

abbrev pub IsValid : CenterFast → Type 0
IsValid c = Numbered fast_max_topics c.topic_map c.topic_names c.next_topic_id

given_lem : (id : ℕ) → id < fast_max_topics → given id ≡ some id
given_lem id h = ground arith

-- What `registerTopic` answers, with no ID for UINT16_MAX.
abbrev pub register : CenterFast → String → Option ℕ × CenterFast
register c name = let (id, c') = register_topic c name in (given id, c')

abbrev pub resolve : CenterFast → String → Option ℕ
resolve c name = given (resolve_topic c name)

pub resolve_lem :
    (c : CenterFast) (name : String) → IsValid c → resolve c name ≡ lookup name c.topic_map
unfolding resolve_topic
resolve_lem c name v = elim (Option-cases (lookup name c.topic_map)) [
  | inl e ↦
      let missing : resolve_topic c name ≡ no_topic = rw (e, resolve_topic) refl in
      ap given missing ∙ sym e
  | inr (i, e) ↦
      let found : resolve_topic c name ≡ i = rw (e, resolve_topic) refl in
      ap given found ∙ given_lem i (v.below name i e).1 ∙ sym e
]

pub register_lem :
    (c : CenterFast) (name : String)
    → IsValid c
    → c.next_topic_id + 1 < 2 ^ 16
    → Registered (λ (t : CenterFast). t.topic_map) c name (register c name)
      × IsValid (register c name).1
      × ((register c name).1.next_topic_id ≤ c.next_topic_id + 1)
unfolding register_topic
register_lem c name v small =
    let up : (c.next_topic_id + 1) % 2 ^ 16 ≡ c.next_topic_id + 1 = omega arith in
    elim (Option-cases (lookup name c.topic_map)) [
      | inr (i, e) ↦
          rw (e, register_topic, given_lem i (v.below name i e).1) (known i e, v, omega arith)
      | inl e ↦ elim (dec_lt c.next_topic_id fast_max_topics) [
        | yes h ↦
            let room : leb fast_max_topics c.next_topic_id ≡ false = ground arith in
            rw (e, register_topic, room, up, given_lem c.next_topic_id h)
              (new c.next_topic_id _ e refl, added-Numbered v name h, omega arith)
        | no h ↦
            let none_left : leb fast_max_topics c.next_topic_id ≡ true = ground arith in
            rw (e, register_topic, none_left, up)
              (refused _ e refl, wider-Numbered v (c.next_topic_id + 1) (omega arith), omega arith)
      ]
    ]

-- The counter has not come round, and does not in `k` more registrations.
abbrev pub HasRoom : ℕ → CenterFast → Type 0
HasRoom k c = IsValid c × (c.next_topic_id + k < 2 ^ 16)

abbrev pub numbering : Numbering CenterFast
numbering = record {
  topic_map = λ c. c.topic_map;
  register = register;
  resolve = resolve;
  Holds = HasRoom;
  resolve_lem = λ k c name h. resolve_lem c name h.0;
  register-Registered = λ k c name h. (register_lem c name h.0 (omega (arith, h.1))).0;
  register-Holds = λ k c name h.
      let (way, valid, up) = register_lem c name h.0 (omega (arith, h.1)) in
      (valid, omega (arith, up, h.1));
  injective = λ k c a b i h. Numbered-injective h.0 a b i;
}

abbrev pub registry : Registry CenterFast
registry = registry_of numbering

-- The ID that `registerTopic` gives to a name is that of the name, and of no other, after any more
-- calls of `registerTopic` that are so few that the counter would stay below 2 ^ 16 if every one
-- of them, the first included, counted it up.
pub fast_ids_stay :
    (c : CenterFast) (name : String) (names : List String) (i : ℕ)
    → IsValid c
    → c.next_topic_id + suc (length names) < 2 ^ 16
    → (register c name).0 ≡ some i
    → (resolve (register_all registry c (name ∷ names)) name ≡ some i)
      × ((other : String)
          → resolve (register_all registry c (name ∷ names)) other ≡ some i
          → other ≡ name)
fast_ids_stay c name names i v few e = register-keeps registry name names c i (v, few) e

-- `k` calls of `registerTopic` with one name
abbrev pub register_times : ℕ → CenterFast → String → CenterFast
register_times zero c name = c
register_times (suc k) c name = register_times k (register_topic c name).1 name

refused_lem :
    (c : CenterFast) (name : String)
    → lookup name c.topic_map ≡ none
    → fast_max_topics ≤ c.next_topic_id
    → register_topic c name
      ≡ (no_topic, record c { next_topic_id = (c.next_topic_id + 1) % 2 ^ 16 })
unfolding register_topic
refused_lem c name e over =
    let none_left : leb fast_max_topics c.next_topic_id ≡ true = ground arith in
    rw (e, register_topic, none_left) refl

refused_times :
    (k : ℕ) (c : CenterFast) (name : String)
    → lookup name c.topic_map ≡ none
    → fast_max_topics ≤ c.next_topic_id
    → c.next_topic_id + suc k ≡ 2 ^ 16
    → register_times (suc k) c name ≡ record c { next_topic_id = 0 }
refused_times zero c name e over last =
    let round : (c.next_topic_id + 1) % 2 ^ 16 ≡ 0 = omega arith in
    ap (λ (t : ℕ × CenterFast). t.1) (refused_lem c name e over)
    ∙ ap (λ (n : ℕ). record c { next_topic_id = n }) round
refused_times (suc k) c name e over last =
    let up : (c.next_topic_id + 1) % 2 ^ 16 ≡ c.next_topic_id + 1 = omega arith in
    ap (λ (t : ℕ × CenterFast). register_times (suc k) t.1 name) (refused_lem c name e over)
    ∙ ap (λ (n : ℕ). register_times (suc k) (record c { next_topic_id = n }) name) up
    ∙ refused_times k (record c { next_topic_id = c.next_topic_id + 1 }) name e (omega arith)
        (omega arith)

first_again :
    (c : CenterFast) (first other : String)
    → lookup first c.topic_map ≡ some 0
    → lookup other c.topic_map ≡ none
    → let r = register_topic (record c { next_topic_id = 0 }) other in
      (r.0 ≡ 0) × (resolve_topic r.1 other ≡ 0) × (resolve_topic r.1 first ≡ 0)
unfolding register_topic resolve_topic
first_again c first other found f = ground (
  arith,
  lookup-insert other other 0 c.topic_map,
  lookup-insert other first 0 c.topic_map,
  eq_iff other other,
  eq_iff other first,
)

-- When no topic is left, enough calls of `registerTopic` with a name that is not known, each of
-- which is refused, bring the counter round to 0: the next new name gets the ID 0 of the first topic,
-- and both names are resolved to it from then on.
pub wrapped_id :
    (k : ℕ) (c : CenterFast) (first name other : String)
    → lookup first c.topic_map ≡ some 0
    → lookup name c.topic_map ≡ none
    → lookup other c.topic_map ≡ none
    → fast_max_topics ≤ c.next_topic_id
    → c.next_topic_id + suc k ≡ 2 ^ 16
    → let r = register_topic (register_times (suc k) c name) other in
      (r.0 ≡ 0) × (resolve_topic r.1 other ≡ 0) × (resolve_topic r.1 first ≡ 0)
wrapped_id k c first name other found e f over last =
    subst
      (λ (t : CenterFast).
        let r = register_topic t other in
        (r.0 ≡ 0) × (resolve_topic r.1 other ≡ 0) × (resolve_topic r.1 first ≡ 0))
      (sym (refused_times k c name e over last)) (first_again c first other found f)
