-- ===== src/Tests/Pool.antt =====
-- src/objectpool.h: a pool of at most one object that starts with one, of which two clients take
-- an object each.
use message_center_cpp.Common.{ℕ, ◌≤◌, refl, [], ◌∷◌, arith, count}
use message_center_cpp.Pool.{preallocate, construct, acquire, release}
use message_center_cpp.Pool.Owners.{Shared, Reach, here, next, take, give, Owned, Reach-Owned}

abbrev busy : (s : Shared) × Reach (7 ∷ []) 1 s
unfolding construct preallocate acquire release
busy = (_, next (next (next here (take 8 refl refl)) (take 9 refl refl)) (give 7 (omega arith)))

once : (x : ℕ) → count x (7 ∷ []) ≤ 1
once x = ground arith

Reach-Owned_example : Owned 1 1 busy.0
Reach-Owned_example = Reach-Owned once busy.1
