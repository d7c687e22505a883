-- ===== src/Mpmc/One.antt =====
-- src/mpmc_queue.h at `Capacity` 1, which its `static_assert` admits: a filled slot has the number
-- of a slot that waits for the next position.
use message_center_cpp.Common.{ℕ, zero, suc, ◌≡◌, refl, true, none, some, ◌>>=◌}
use message_center_cpp.Mpmc.{
  Ring, index, verdict, fill, init, push_loop, pop_loop, try_push, try_pop,
}

-- The ring after pushes of `x` and `y`.
abbrev pub overrun : {A : Type 0} → A → A → A → Ring A
overrun garbage x y = fill 1 (fill 1 (init garbage) 0 x) 1 y

overrun_loop :
    {A : Type 0} (garbage x y out : A) (n : ℕ) → pop_loop 1 n (overrun garbage x y) out 0 ≡ none
unfolding pop_loop fill init verdict index
overrun_loop garbage x y out zero = refl
overrun_loop garbage x y out (suc n) = overrun_loop garbage x y out n

-- In a ring of capacity 1, two pushes in a row both succeed, the second overwrites the first item,
-- and `try_pop` then reloads its counter for ever: it has not ended after any number of rounds.
pub overrun_livelock :
    {A : Type 0} (garbage x y out : A) (n : ℕ)
    → ((do (b, r) ← try_push 1 0 (init garbage) x; try_push 1 0 r y)
        ≡ some (true, overrun garbage x y))
      × ((overrun garbage x y).slots 0 ≡ record { seq = 2; item = y })
      × (try_pop 1 n (overrun garbage x y) out ≡ none)
unfolding try_push try_pop push_loop fill init verdict index
overrun_livelock garbage x y out n = (refl, refl, overrun_loop garbage x y out n)
