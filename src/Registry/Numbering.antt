-- ===== src/Registry/Numbering.antt =====
-- The registries that keep a `std::map` from names to IDs: what they show of their functions gives
-- the laws of a registry.
use Prim.Native.String.{String}
use message_center_cpp.Common.{
  ℕ, suc, ◌≡◌, ◌≢◌, refl, sym, ap, ◌∙◌, Option, none, some, List, arith,
}
use message_center_cpp.Common.Maps.{lookup, insert, string_eq}
use message_center_cpp.Registry.{Registry}
use message_center_cpp.Registry.Numbered.{lookup_added, lookup_other}

-- The three ways through the registration of a name, with the answer and the state after it.
pub data Registered {S : Type 0} (topic_map : S → List (String × ℕ)) (s : S) (name : String)
    : Option ℕ × S → Type 0 where
  known : (i : ℕ) → lookup name (topic_map s) ≡ some i → Registered topic_map s name (some i, s)
  new :
      (i : ℕ) (t : S)
      → lookup name (topic_map s) ≡ none
      → topic_map t ≡ insert name i (topic_map s)
      → Registered topic_map s name (some i, t)
  refused :
      (t : S)
      → lookup name (topic_map s) ≡ none
      → topic_map t ≡ topic_map s
      → Registered topic_map s name (none, t)

pub record Numbering (S : Type 0) : Type 1 where
  pub topic_map : S → List (String × ℕ)
  pub register : S → String → Option ℕ × S
  pub resolve : S → String → Option ℕ
  pub Holds : ℕ → S → Type 0
  pub resolve_lem :
      (k : ℕ) (s : S) (name : String) → Holds k s → resolve s name ≡ lookup name (topic_map s)
  pub register-Registered :
      (k : ℕ) (s : S) (name : String)
      → Holds (suc k) s
      → Registered topic_map s name (register s name)
  pub register-Holds :
      (k : ℕ) (s : S) (name : String) → Holds (suc k) s → Holds k (register s name).1
  pub injective :
      (k : ℕ) (s : S) (a b : String) (i : ℕ)
      → Holds k s
      → lookup a (topic_map s) ≡ some i
      → lookup b (topic_map s) ≡ some i
      → a ≡ b

module _ {S : Type 0} (n : Numbering S) where
  pub lookup-register :
      (s : S) (name : String) {r : Option ℕ × S}
      → Registered n.topic_map s name r
      → lookup name (n.topic_map r.1) ≡ r.0
  lookup-register s name (known i e) = e
  lookup-register s name (new i t e f) = ap (lookup name) f ∙ lookup_added name i (n.topic_map s)
  lookup-register s name (refused t e f) = ap (lookup name) f ∙ e

  pub lookup-register_other :
      (s : S) (name other : String) {r : Option ℕ × S}
      → other ≢ name
      → Registered n.topic_map s name r
      → lookup other (n.topic_map r.1) ≡ lookup other (n.topic_map s)
  lookup-register_other s name other ne (known i e) = refl
  lookup-register_other s name other ne (new i t e f) =
      ap (lookup other) f ∙ lookup_other name other i (n.topic_map s) ne
  lookup-register_other s name other ne (refused t e f) = ap (lookup other) f

  pub register_known :
      (s : S) (name : String) (i : ℕ) {r : Option ℕ × S}
      → lookup name (n.topic_map s) ≡ some i
      → Registered n.topic_map s name r
      → r ≡ (some i, s)
  register_known s name i e (known j f) = ap (λ (a : Option ℕ). (a, s)) (sym f ∙ e)
  register_known s name i e (new j t f g) = ground (arith, e, f)
  register_known s name i e (refused t f g) = ground (arith, e, f)

  abbrev pub registry_of : Registry S
  registry_of = record {
    register = n.register;
    resolve = n.resolve;
    Holds = n.Holds;
    register-Holds = n.register-Holds;
    resolve-register = λ k s name h.
        n.resolve_lem k (n.register s name).1 name (n.register-Holds k s name h)
        ∙ lookup-register s name (n.register-Registered k s name h);
    resolve-register_other = λ k s name other h ne.
        n.resolve_lem k (n.register s name).1 other (n.register-Holds k s name h)
        ∙ lookup-register_other s name other ne (n.register-Registered k s name h)
        ∙ sym (n.resolve_lem (suc k) s other h);
    register-known = λ k s name i h e.
        register_known s name i (sym (n.resolve_lem (suc k) s name h) ∙ e)
          (n.register-Registered k s name h);
    resolve_injective = λ k s a b i h e f.
        n.injective k s a b i h (sym (n.resolve_lem k s a h) ∙ e) (sym (n.resolve_lem k s b h) ∙ f);
  }
