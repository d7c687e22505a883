-- ===== src/Tests/Threads.antt =====
-- src/mpmc_queue.h with two slots: two producers race for one position, and a consumer takes the
-- first item.
use message_center_cpp.Common.{ℕ, ◌≤◌, ◌+◌, ◌≡◌, refl, [], ◌∷◌, arith}
use message_center_cpp.Mpmc.{index, verdict}
use message_center_cpp.Mpmc.Arith.{IsCapacity}
use message_center_cpp.Mpmc.Threads.{
  System, Reach, here, next, start, claim_tail, write_item, publish, claim_head, release, call_push,
  load_tail, check_push, take_tail, miss_tail, write, store_push, call_pop, load_head, check_pop,
  take_head, read, store_pop,
}
use message_center_cpp.Mpmc.Threads.Safety.{popped_once, no_data_race, window_bounds}

abbrev two : IsCapacity 2
two = record { bits = 1; low = omega arith; high = omega arith; power = refl }

-- Threads 0 and 1 have both loaded the tail, and thread 0 has claimed the position.
abbrev raced : (s : System ℕ) × Reach 2 0 s
unfolding start claim_tail index verdict
raced = (
  _,
  next
      (next
        (next
          (next
            (next (next (next here (call_push 0 7 refl)) (load_tail 0 7 refl))
              (check_push 0 7 0 refl refl))
            (call_push 1 8 refl))
          (load_tail 1 8 refl))
        (check_push 1 8 0 refl refl))
      (take_tail 0 7 0 refl refl),
)

-- Thread 1 has to try again; thread 0 publishes its item, and thread 2 takes it.
abbrev taken : (s : System ℕ) × Reach 2 0 s
unfolding start claim_tail index verdict write_item publish claim_head release
taken = (
  _,
  next
      (next
        (next
          (next
            (next
              (next
                (next (next (next raced.1 (miss_tail 1 8 0 refl)) (write 0 7 0 refl))
                  (store_push 0 7 0 refl))
                (call_pop 2 refl))
              (load_head 2 refl))
            (check_pop 2 0 refl refl))
          (take_head 2 0 refl refl))
        (read 2 0 refl))
      (store_pop 2 0 7 refl),
)

abbrev producer : ℕ
producer = 0

popped_once_example : taken.0.delivered 0 ≡ 7 ∷ []
unfolding start claim_tail index verdict write_item publish claim_head release
popped_once_example = popped_once two 0 taken.1 (omega arith) (λ i. ground arith)

no_data_race_example : producer ≡ producer
unfolding start claim_tail index verdict
no_data_race_example = no_data_race two producer producer 0 0 raced.1 (omega arith) refl refl refl

window_bounds_example : (taken.0.pops ≤ taken.0.pushes) × (taken.0.pushes ≤ taken.0.pops + 2)
unfolding start claim_tail index verdict write_item publish claim_head release
window_bounds_example = window_bounds two taken.1 (omega arith)
