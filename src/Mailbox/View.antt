-- ===== src/Mailbox/View.antt =====
-- A mailbox whose messages are read in another way: its operations do not look at them.
use message_center_cpp.Common.{
  ℕ, Bool, true, false, ◌≡◌, refl, Option, none, some, ◌>>=◌, ap, fun_ext, ◌==◌, if◌then◌else◌,
  Bool-cases, inl, inr,
}
use message_center_cpp.Mpmc
use message_center_cpp.Mpmc.{Ring}
use message_center_cpp.Mailbox.{Mailbox, Outside, write, enqueue, receive}

module _ {M N : Type 0} (f : M → N) where
  abbrev pub view : Mailbox M → Mailbox N
  view b = record {
    queue = b.queue;
    message_pool = b.message_pool;
    messages = λ x. f (b.messages x);
  }

  abbrev pub view_queued : Option (Mailbox M) → Option (Mailbox N)
  view_queued none = none
  view_queued (some b) = some (view b)

  abbrev pub view_received : Option (Option ℕ × Mailbox M) → Option (Option ℕ × Mailbox N)
  view_received none = none
  view_received (some (node, b)) = some (node, view b)

  pub write-view :
      (b : Mailbox M) (node : ℕ) (m : M) → write (view b) node (f m) ≡ view (write b node m)
  unfolding write
  write-view b node m =
      ap (λ (g : ℕ → N). record (view b) { messages = g })
        (fun_ext (λ x. elim (Bool-cases (node == x)) [ inl e ↦ rw e refl | inr e ↦ rw e refl ]))

  pub enqueue-view :
      (cap : ℕ) (b : Mailbox M) (node : ℕ) (out : Outside)
      → enqueue cap (view b) node out ≡ view_queued (enqueue cap b node out)
  unfolding enqueue
  enqueue-view cap b node out = pushed (Mpmc.try_push cap out.ring_failures b.queue (some node))
    where
      pushed :
          (r : Option (Bool × Ring (Option ℕ)))
          → (r >>= (λ t. if t.0 then some (record (view b) { queue = t.1 }) else none))
            ≡ view_queued (r >>= (λ t. if t.0 then some (record b { queue = t.1 }) else none))
      pushed none = refl
      pushed (some (true, ring)) = refl
      pushed (some (false, ring)) = refl

  pub receive-view :
      (cap : ℕ) (b : Mailbox M) (out : Outside)
      → receive cap (view b) out ≡ view_received (receive cap b out)
  unfolding receive
  receive-view cap b out = popped (Mpmc.try_pop cap out.ring_failures b.queue none)
    where
      popped :
          (r : Option (Bool × Option ℕ × Ring (Option ℕ)))
          → (r >>= (λ t. some (if t.0 then t.1 else none, record (view b) { queue = t.2 })))
            ≡ view_received
                (r >>= (λ t. some (if t.0 then t.1 else none, record b { queue = t.2 })))
      popped none = refl
      popped (some r) = refl
