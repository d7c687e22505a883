-- ===== src/Tests/Mpmc.antt =====
-- src/mpmc_queue.h on a ring of two slots.
use message_center_cpp.Common.{
  ℕ, ◌≡◌, refl, true, false, none, some, List, [], ◌∷◌, ◌>>=◌, arith, ◌+◌, ◌-◌, ◌^◌,
}
use message_center_cpp.Mpmc
use message_center_cpp.Mpmc.Arith.{IsCapacity}
use message_center_cpp.Mpmc.Invariant.{init-Holds}
use message_center_cpp.Mpmc.Fifo
use message_center_cpp.Mpmc.Fifo.{Op, put, get}
use message_center_cpp.Mpmc.Refine.{run, run_refines}
use message_center_cpp.Mpmc.One.{overrun, overrun_livelock}

two : IsCapacity 2
two = record { bits = 1; low = omega arith; high = omega arith; power = refl }

abbrev calls : List (ℕ × Op ℕ)
calls =
    (0, put 5)
    ∷ (2, put 6)
    ∷ (0, put 7)
    ∷ (1, get)
    ∷ (0, put 8)
    ∷ (0, get)
    ∷ (0, get)
    ∷ (0, get)
    ∷ []

run_calls :
    run 2 (Mpmc.init 0) 0 calls
    ≡ some (
        (true, 0)
        ∷ (true, 0)
        ∷ (false, 0)
        ∷ (true, 5)
        ∷ (true, 5)
        ∷ (true, 6)
        ∷ (true, 8)
        ∷ (false, 8)
        ∷ [])
unfolding run Mpmc.try_push Mpmc.try_pop Mpmc.push_loop Mpmc.pop_loop Mpmc.fill Mpmc.vacate
    Mpmc.init Mpmc.index Mpmc.verdict
run_calls = refl

-- A counter that is about to wrap.
abbrev late : Mpmc.Ring ℕ
late = record {
  slots = λ i. record { seq = 2 ^ 64 - 2 + i; item = 0 };
  head = 2 ^ 64 - 2;
  tail = 2 ^ 64 - 2;
}

run-late :
    run 2 late 0 calls
    ≡ some (
        (true, 0)
        ∷ (true, 0)
        ∷ (false, 0)
        ∷ (true, 5)
        ∷ (true, 5)
        ∷ (true, 6)
        ∷ (true, 8)
        ∷ (false, 8)
        ∷ [])
unfolding run Mpmc.try_push Mpmc.try_pop Mpmc.push_loop Mpmc.pop_loop Mpmc.fill Mpmc.vacate
    Mpmc.index Mpmc.verdict
run-late = refl

run_refines_example : run 2 (Mpmc.init 0) 0 calls ≡ some (Fifo.run 2 [] 0 calls)
run_refines_example = run_refines two calls [] 0 (0, init-Holds two 0)

overrun_livelock_example :
    ((do (b, r) ← Mpmc.try_push 1 0 (Mpmc.init 0) 5; Mpmc.try_push 1 0 r 6)
      ≡ some (true, overrun {A = ℕ} 0 5 6))
    × ((overrun {A = ℕ} 0 5 6).slots 0 ≡ record { seq = 2; item = 6 })
    × (Mpmc.try_pop 1 100 (overrun {A = ℕ} 0 5 6) 9 ≡ none)
overrun_livelock_example = overrun_livelock 0 5 6 9 100
