-- ===== src/Registry/Numbered.antt =====
-- The map and the name array of a registry that numbers its names in the order of their coming.
use Prim.Native.String.{String}
use text.Mathlib.TextEquality.{eq_iff}
use message_center_cpp.Common.{ℕ, ◌+◌, ◌<◌, ◌≤◌, ◌≡◌, ◌≢◌, some, List, [], arith}
use message_center_cpp.Common.Maps.{lookup, insert, lookup-insert, string_eq}
use message_center_cpp.Mailbox.{update}

pub record Numbered (limit : ℕ) (m : List (String × ℕ)) (names : ℕ → String) (count : ℕ)
    : Type 0 where
  pub below : (name : String) (i : ℕ) → lookup name m ≡ some i → (i < count) × (i < limit)
  pub named : (name : String) (i : ℕ) → lookup name m ≡ some i → names i ≡ name

pub start-Numbered : (limit : ℕ) (names : ℕ → String) → Numbered limit [] names 0
unfolding lookup
start-Numbered limit names = record {
  below = λ name i e. ground (arith, e);
  named = λ name i e. ground (arith, e);
}

module _ {limit : ℕ} {m : List (String × ℕ)} {names : ℕ → String} {count : ℕ}
    (v : Numbered limit m names count) where
  pub added-Numbered :
      (name : String)
      → count < limit
      → Numbered limit (insert name count m) (update names count name) (count + 1)
  added-Numbered name room = record {
    below = λ n i e. ground (arith, lookup-insert name n count m, v.below n i);
    named = λ n i e.
        ground (arith, lookup-insert name n count m, eq_iff name n, v.below n i, v.named n i);
  }

  pub wider-Numbered : (more : ℕ) → count ≤ more → Numbered limit m names more
  wider-Numbered more h = record { below = λ n i e. omega (arith, v.below n i e); named = v.named }

  pub Numbered-injective :
      (a b : String) (i : ℕ) → lookup a m ≡ some i → lookup b m ≡ some i → a ≡ b
  Numbered-injective a b i e f = ground (arith, v.named a i e, v.named b i f)

pub lookup_added :
    (name : String) (i : ℕ) (m : List (String × ℕ)) → lookup name (insert name i m) ≡ some i
lookup_added name i m = ground (arith, lookup-insert name name i m, eq_iff name name)

pub lookup_other :
    (name other : String) (i : ℕ) (m : List (String × ℕ))
    → other ≢ name
    → lookup other (insert name i m) ≡ lookup other m
lookup_other name other i m ne = ground (arith, lookup-insert name other i m, eq_iff name other)
