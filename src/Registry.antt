-- ===== src/Registry.antt =====
-- What the queues promise of their topics: the registries of src/eventqueue.cpp,
-- src/eventqueue_broadcast.h and src/messagecenter_fast.h under one interface, and what follows for
-- any sequence of registrations.
pub mod Numbered
pub mod Numbering
pub mod Broadcast
pub mod CenterFast
pub mod EventQueue
use Prim.Native.String.{String}
use text.Mathlib.Text.{◌==◌ as str_eq}
use text.Mathlib.TextEquality.{eq_iff}
use message_center_cpp.Common.{
  ℕ, zero, suc, ◌+◌, Bool, true, false, Bool-cases, ◌≡◌, ◌≢◌, refl, sym, ◌∙◌, Option, none, some,
  List, [], ◌∷◌, length, Option-cases, inl, inr, ◌⊎◌, arith, ap,
}

-- `Holds k s` is the invariant of the registry with `k` more registrations to come. `none` is each
-- queue's code for an ID that is not given.
pub record Registry (S : Type 0) : Type 1 where
  pub register : S → String → Option ℕ × S
  pub resolve : S → String → Option ℕ
  pub Holds : ℕ → S → Type 0
  pub register-Holds :
      (k : ℕ) (s : S) (name : String) → Holds (suc k) s → Holds k (register s name).1
  pub resolve-register :
      (k : ℕ) (s : S) (name : String)
      → Holds (suc k) s
      → resolve (register s name).1 name ≡ (register s name).0
  pub resolve-register_other :
      (k : ℕ) (s : S) (name other : String)
      → Holds (suc k) s
      → other ≢ name
      → resolve (register s name).1 other ≡ resolve s other
  pub register-known :
      (k : ℕ) (s : S) (name : String) (i : ℕ)
      → Holds (suc k) s
      → resolve s name ≡ some i
      → register s name ≡ (some i, s)
  pub resolve_injective :
      (k : ℕ) (s : S) (a b : String) (i : ℕ)
      → Holds k s
      → resolve s a ≡ some i
      → resolve s b ≡ some i
      → a ≡ b

false-true : false ≢ true
false-true e = ground (arith, e)

module _ {S : Type 0} (r : Registry S) where
  abbrev pub register_all : S → List String → S
  register_all s [] = s
  register_all s (name ∷ names) = register_all (r.register s name).1 names

  pub register_all-Holds :
      (names : List String) (s : S) → r.Holds (length names) s → r.Holds 0 (register_all s names)
  register_all-Holds [] s h = h
  register_all-Holds (name ∷ names) s h =
      register_all-Holds names (r.register s name).1 (r.register-Holds (length names) s name h)

  -- An ID that was given stays that of its name.
  pub register_all-keeps :
      (names : List String) (s : S) (name : String) (i : ℕ)
      → r.Holds (length names) s
      → r.resolve s name ≡ some i
      → r.resolve (register_all s names) name ≡ some i
  register_all-keeps [] s name i h e = e
  register_all-keeps (n ∷ names) s name i h e =
      register_all-keeps names (r.register s n).1 name i (r.register-Holds (length names) s n h)
        (elim (Bool-cases (str_eq name n)) [
          | inl same ↦
              let here : n ≡ name = sym ((eq_iff name n).0 same) in
              let found : r.resolve s n ≡ some i = ap (r.resolve s) here ∙ e in
              ap (λ t. r.resolve t.1 name) (r.register-known (length names) s n i h found) ∙ e
          | inr ne ↦
              r.resolve-register_other (length names) s n name h
                (λ same. false-true (sym ne ∙ (eq_iff name n).1 same))
              ∙ e
        ])

  -- A name that was given an ID has it after any more registrations, and no other name has it.
  pub register-keeps :
      (name : String) (names : List String) (s : S) (i : ℕ)
      → r.Holds (suc (length names)) s
      → (r.register s name).0 ≡ some i
      → (r.resolve (register_all s (name ∷ names)) name ≡ some i)
        × ((other : String)
            → r.resolve (register_all s (name ∷ names)) other ≡ some i
            → other ≡ name)
  register-keeps name names s i h e =
      let s' = (r.register s name).1 in
      let held = r.register-Holds (length names) s name h in
      let kept =
        register_all-keeps names s' name i held (r.resolve-register (length names) s name h ∙ e) in
      (
        kept,
        λ other f.
            r.resolve_injective 0 (register_all s' names) other name i
              (register_all-Holds names s' held) f kept,
      )
