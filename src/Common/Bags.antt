-- ===== src/Common/Bags.antt =====
-- Lists of addresses as bags: how often one occurs, and taking one out.
use Prim.Native.Nat.{ℕ, ◌+◌, ◌≤◌}
use mathlib.Core.Path.{◌≡◌}
use mathlib.Core.List.{List, [], ◌∷◌}
use native.Mathlib.Omega.{arith}
use message_center_cpp.Common.Tests.{◌==◌, if◌then◌else◌}
use message_center_cpp.Common.Lists.{length}

abbrev pub one_if : ℕ → ℕ → ℕ
one_if x y = if x == y then 1 else 0

abbrev pub count : ℕ → List ℕ → ℕ
count x [] = 0
count x (y ∷ ys) = one_if x y + count x ys

abbrev pub without : ℕ → List ℕ → List ℕ
without x [] = []
without x (y ∷ ys) = if x == y then ys else y ∷ without x ys

pub count-without :
    (x y : ℕ) (ys : List ℕ) → 1 ≤ count x ys → count y (without x ys) + one_if y x ≡ count y ys
count-without x y [] h = absurd (omega arith)
count-without x y (z ∷ zs) h = ground (arith, count-without x y zs)

pub length-without : (x : ℕ) (ys : List ℕ) → 1 ≤ count x ys → length (without x ys) + 1 ≡ length ys
length-without x [] h = absurd (omega arith)
length-without x (z ∷ zs) h = ground (arith, length-without x zs)
