-- ===== src/Registry/EventQueue.antt =====
-- The registry of src/eventqueue.cpp, whose negative answers are no IDs.
use Prim.Native.String.{String}
use text.Mathlib.Text.{◌==◌ as str_eq}
use text.Mathlib.TextEquality.{eq_iff}
use message_center_cpp.Common.{
  ℕ, ◌≡◌, refl, sym, ap, ◌∙◌, Option, none, some, List, ◌∷◌, Option-cases, Bool-cases, inl, inr,
}
use message_center_cpp.Common.Int.{ℤ, pos, negsuc}
use message_center_cpp.Common.Maps.{lookup, insert, string_eq}
use message_center_cpp.EventQueue.Topics
use message_center_cpp.EventQueue.Topics.{resolve, add_topic}
use message_center_cpp.EventQueue.Topics.Invariant
use message_center_cpp.EventQueue.Topics.Invariant.{IsValid, register-Registered, register-IsValid}
use message_center_cpp.Registry.{Registry, register_all, register-keeps}
use message_center_cpp.Registry.Numbering.{Numbering, Registered, known, new, refused, registry_of}

abbrev pub given : ℤ → Option ℕ
given (pos i) = some i
given (negsuc i) = none

abbrev pub topic_map : Topics.Topics → List (String × ℕ)
topic_map t = t.resolve_map

abbrev pub register : Topics.Topics → String → Option ℕ × Topics.Topics
register t name = let (id, t') = Topics.register t name in (given id, t')

pub resolve_lem :
    (t : Topics.Topics) (name : String)
    → IsValid t
    → given (resolve t name) ≡ lookup name t.resolve_map
unfolding resolve
resolve_lem t name v = elim (Bool-cases (str_eq name "")) [
  | inl e ↦ rw e (sym v.unnamed ∙ ap (λ n. lookup n t.resolve_map) (sym ((eq_iff name "").0 e)))
  | inr e ↦ elim (Option-cases (lookup name t.resolve_map)) [
    | inl f ↦ rw (e, f) refl
    | inr (i, f) ↦ rw (e, f) refl
  ]
]

map_lem :
    (t : Topics.Topics) (name : String)
    → (add_topic t name).resolve_map ≡ insert name t.topic_max t.resolve_map
unfolding add_topic
map_lem t name = refl

pub register_lem :
    (t : Topics.Topics) (name : String) → IsValid t → Registered topic_map t name (register t name)
register_lem t name v = on (register-Registered t name)
  where
    on :
        {r : ℤ × Topics.Topics}
        → Invariant.Registered t name r
        → Registered topic_map t name (given r.0, r.1)
    on (Invariant.empty_name e) = refused t (ap (λ n. lookup n t.resolve_map) e ∙ v.unnamed) refl
    on (Invariant.known i ne e) = known i e
    on (Invariant.added ne e room) = new t.topic_max (add_topic t name) e (map_lem t name)
    on (Invariant.full ne e none_left) = refused t e refl

pub ids_injective :
    (t : Topics.Topics) (a b : String) (i : ℕ)
    → IsValid t
    → lookup a t.resolve_map ≡ some i
    → lookup b t.resolve_map ≡ some i
    → a ≡ b
ids_injective t a b i v e f = sym (v.named a i e) ∙ v.named b i f

abbrev pub numbering : Numbering Topics.Topics
numbering = record {
  topic_map = topic_map;
  register = register;
  resolve = λ t name. given (resolve t name);
  Holds = λ k t. IsValid t;
  resolve_lem = λ k t name v. resolve_lem t name v;
  register-Registered = λ k t name v. register_lem t name v;
  register-Holds = λ k t name v. register-IsValid name v;
  injective = λ k t a b i v. ids_injective t a b i v;
}

abbrev pub registry : Registry Topics.Topics
registry = registry_of numbering

-- The ID that `RegisterTopic` gives to a name is what `ResolveTopic` answers for the name, and for no
-- other, after any number of further registrations.
pub topic_ids_stay :
    (t : Topics.Topics) (name : String) (names : List String) (i : ℕ)
    → IsValid t
    → (register t name).0 ≡ some i
    → (given (resolve (register_all registry t (name ∷ names)) name) ≡ some i)
      × ((other : String)
          → given (resolve (register_all registry t (name ∷ names)) other) ≡ some i
          → other ≡ name)
topic_ids_stay t name names i v e = register-keeps registry name names t i v e
