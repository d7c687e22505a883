-- ===== src/Tests/Removal.antt =====
-- A history of the removal protocol of src/eventqueue.cpp: two threads, one dispatches while the
-- other removes.
use message_center_cpp.Common.{◌≡◌, refl, [], ◌∷◌, arith, inl}
use message_center_cpp.EventQueue.Removal.{
  System, Reach, here, next, add, begin, call, finish, remove, return, erase_id,
}
use message_center_cpp.EventQueue.Removal.Threads.{Absent, pending}
use message_center_cpp.EventQueue.Removal.Safety.{removed_is_silent}

-- Observer 1 is added to topic 0, thread 0 dispatches to it, thread 1 removes it and waits.
removal_done : (s : System) × Reach 2 s × (s.returned ≡ 1 ∷ [])
unfolding erase_id
removal_done = (
  _,
  next
      (next
        (next
          (next (next (next here (add 0)) (begin 0 0 (omega arith) refl))
            (remove 1 1 (omega arith) refl (omega arith) (omega arith)))
          (call 0 1 [] (omega arith) refl))
        (finish 0 (omega arith) refl))
      (return 1 (1 ∷ []) (omega arith) refl refl),
  refl,
)

removed_is_silent_example :
    Absent 1 (removal_done.0.observers 0) × Absent 1 (pending (removal_done.0.pc 0))
unfolding removal_done
removed_is_silent_example = removed_is_silent 1 0 0 removal_done.1 (inl refl) (omega arith)
