-- ===== src/PoolLockFree/Threads/Aba.antt =====
-- What the compare-exchange of `popFree` in src/objectpool_lockfree.h does not notice: a head that was
-- taken off the stack and put back since it was loaded.
use message_center_cpp.Common.{ℕ, ◌≤◌, ◌≡◌, ◌≢◌, refl, some, count, without, arith}
use message_center_cpp.PoolLockFree.Threads.{
  idle, pop_read, pop_claim, push_write, Stack, update, link, put, claim, load_pop, read, take,
  load_push, write, give, Steps, here, later,
}

module _ (s : Stack) (a b : ℕ) (ne : a ≢ b) (top : s.free_list ≡ some a)
    (second : s.next a ≡ some b) (first_idle : s.pc 0 ≡ idle) (other_idle : s.pc 1 ≡ idle) where
  -- thread 0 up to its compare-exchange
  abbrev suspended : Stack
  suspended = record s { pc = update (update s.pc 0 (pop_read a)) 0 (pop_claim a (s.next a)) }

  to_suspended : Steps s suspended
  to_suspended = later (later here (load_pop 0 a first_idle top)) (read 0 a refl)

  -- thread 1 then takes both nodes
  abbrev one_taken : Stack
  one_taken =
      claim
        (record suspended {
          pc = update (update suspended.pc 1 (pop_read a)) 1 (pop_claim a (s.next a));
        })
        1 a (s.next a)

  to_one_taken : Steps s one_taken
  to_one_taken =
      later (later (later to_suspended (load_pop 1 a other_idle top)) (read 1 a refl))
        (take 1 a (s.next a) refl top)

  abbrev both_taken : Stack
  both_taken =
      claim
        (record one_taken {
          pc = update (update one_taken.pc 1 (pop_read b)) 1 (pop_claim b (s.next b));
        })
        1 b (s.next b)

  to_both_taken : Steps s both_taken
  unfolding claim
  to_both_taken =
      later (later (later to_one_taken (load_pop 1 b refl second)) (read 1 b refl))
        (take 1 b (s.next b) refl second)

  -- and gives the first back
  abbrev returned : Stack
  returned =
      put
        (link
          (record both_taken {
            in_use = without a both_taken.in_use;
            pc = update both_taken.pc 1 (push_write a both_taken.free_list);
          })
          1 a both_taken.free_list)
        1 a

  to_returned : Steps s returned
  unfolding claim link put
  to_returned =
      later
        (later (later to_both_taken (load_push 1 a refl (ground arith)))
          (write 1 a (s.next b) refl))
        (give 1 a (s.next b) refl refl)

  -- From every state whose stack has two nodes at its top, and in which two threads are idle, the two
  -- can bring the stack to a state in which the second node is at its top and in use at once: the
  -- next `popFree` gives it to a second owner.
  pub aba_two_owners : (t : Stack) × Steps s t × (t.free_list ≡ some b) × (1 ≤ count b t.in_use)
  unfolding claim link put
  aba_two_owners = (
    claim returned 0 a (s.next a),
    later to_returned (take 0 a (s.next a) refl refl),
    second,
    ground arith,
  )
