-- ===== src/Tests/PoolLockFree.antt =====
-- src/objectpool_lockfree.h: a stack of one node, of which two clients take a node each.
use message_center_cpp.Common.{
  ℕ, ◌≤◌, ◌≡◌, refl, none, some, List, [], ◌∷◌, arith, count, ◌==◌, if◌then◌else◌,
}
use message_center_cpp.PoolLockFree.{
  preallocate, construct, acquire, release, push_loop, push_free, pop_loop, pop_free,
}
use message_center_cpp.PoolLockFree.Threads
use message_center_cpp.PoolLockFree.Threads.Aba.{aba_two_owners}
use message_center_cpp.PoolLockFree.Owners.{
  Shared, Reach, here, next, take, give, Sound, Reach-Sound,
}

abbrev two_free : Threads.Stack
two_free = record {
  next = λ x. if x == 1 then some 2 else none;
  free_list = some 1;
  in_use = [];
  pc = λ _. Threads.idle;
}

aba_two_owners_example :
    (t : Threads.Stack) × Threads.Steps two_free t × (t.free_list ≡ some 2) × (1 ≤ count 2 t.in_use)
aba_two_owners_example = aba_two_owners two_free 1 2 (λ e. ground (arith, e)) refl refl refl refl

abbrev busy : (s : Shared) × Reach (7 ∷ []) 1 s
unfolding construct preallocate acquire release push_loop push_free pop_loop pop_free
busy = (
  _,
  next (next (next here (take 0 8 (7 ∷ []) (refl, refl) refl refl)) (take 3 9 [] refl refl refl))
      (give 1 7 (omega arith)),
)

once : (x : ℕ) → count x (7 ∷ []) ≤ 1
once x = ground arith

Reach-Sound_example : (free : List ℕ) × Sound free busy.0
Reach-Sound_example = Reach-Sound once busy.1
