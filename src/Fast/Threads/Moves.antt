-- ===== src/Fast/Threads/Moves.antt =====
-- A node of src/eventqueue_fast.h changes hands: a thread pushes it, pops it, or gives it back.
use message_center_cpp.Common.{
  ℕ, ◌+◌, ◌≡◌, ◌≢◌, refl, sym, ap, subst, ◌∙◌, Option, some, List, [], ◌∷◌, ◌++◌, map, count, arith,
  ℕ_discrete, dec_lt, one_if,
}
use message_center_cpp.Mpmc.Arith.{IsCapacity}
use message_center_cpp.Mpmc.Refine.{Contents}
use message_center_cpp.Mpmc.Threads.Invariant.{update_cases}
use message_center_cpp.PoolLockFree
use message_center_cpp.PoolLockFree.Owners.{Chain}
use message_center_cpp.Mailbox.{Mailbox, update, enqueue, receive}
use message_center_cpp.Mailbox.Queued.{map-append, count-append}
use message_center_cpp.Mailbox.Answers.{enqueue_answer, receive_answer}
use message_center_cpp.Message.{FastMessage}
use message_center_cpp.Message.Letters.{Letter}
use message_center_cpp.Fast.Threads.{
  Pc, idle, pushing, calling, swinging, System, outside, push, pop, put,
}
use message_center_cpp.Fast.Threads.Nodes.{holds, Held, Owned}

module _ {cap : ℕ} {s : System} {free nodes : List ℕ} {owner : ℕ → Option ℕ}
    (v : Owned cap s free nodes owner) (i : ℕ) where
  -- The node that a thread has pushed is the last of the ring.
  pub push-Owned :
      (c : IsCapacity cap) (failures node : ℕ) (l : Letter) (b : Mailbox FastMessage)
      → s.pc i ≡ pushing node l
      → enqueue cap s.mailbox node (outside s failures) ≡ some b
      → Owned cap (push s i l b) free (nodes ++ node ∷ []) owner
  unfolding push
  push-Owned c failures node l b e h =
      let (ring, same, w) = enqueue_answer c node (outside s failures) b v.ring h in
      let mine = v.held i node (ap holds e) in
      let more : (x : ℕ) → count x (nodes ++ node ∷ []) ≡ count x nodes + one_if x node =
        λ x. omega (arith, count-append x nodes (node ∷ [])) in
      record {
        ring = subst (Contents cap b.queue) (sym (map-append some nodes (node ∷ []))) (
            subst (λ r. Contents cap r (map some nodes ++ some node ∷ []))
              (ap (λ (q : Mailbox FastMessage). q.queue) same) w);
        chain =
            subst (λ (q : PoolLockFree.Pool). Chain q.next q.free_list free)
              (ap (λ (q : Mailbox FastMessage). q.message_pool) same) v.chain;
        alone = λ x. elim (ℕ_discrete x node) [
          | yes q ↦ rw q (ground (arith, more node, mine.not_free, mine.not_queued))
          | no ne ↦ ground (arith, more x, v.alone x)
        ];
        known = λ x k. ground (arith, more x, v.known x k, mine.made);
        held = λ j x.
            update_cases
              (λ (r : Pc).
                holds r ≡ some x → Held (push s i l b) free (nodes ++ node ∷ []) owner j x)
              s.pc i idle j (λ q k. ground (arith, k))
              (λ ne k.
                let old = v.held j x k in
                let apart : x ≢ node = λ q. ne (ground (arith, q, mine.owned, old.owned)) in
                record {
                  owned = old.owned;
                  not_free = old.not_free;
                  not_queued = ground (arith, more x, old.not_queued);
                  made = old.made;
                });
      }

  -- The node that a thread has popped is its own.
  pub pop-Owned :
      (c : IsCapacity cap) (failures node : ℕ) (b : Mailbox FastMessage)
      → s.pc i ≡ idle
      → receive cap s.mailbox (outside s failures) ≡ some (some node, b)
      → (nodes' : List ℕ) × (nodes ≡ node ∷ nodes')
        × Owned cap (pop s i node b) free nodes' (update owner node (some i))
  unfolding pop
  pop-Owned c failures node b e h =
      let (nodes', ring, split, same, w) = receive_answer c node (outside s failures) b v.ring h in
      let less : (x : ℕ) → count x nodes ≡ one_if x node + count x nodes' =
        λ x. ap (count x) split ∙ refl in
      let p = calling node s.taken (b.messages node).observers in
      let one : one_if node node ≡ 1 = ground arith in
      (
        nodes',
        split,
        record {
          ring =
              subst (λ r. Contents cap r (map some nodes'))
                (ap (λ (q : Mailbox FastMessage). q.queue) same) w;
          chain =
              subst (λ (q : PoolLockFree.Pool). Chain q.next q.free_list free)
                (ap (λ (q : Mailbox FastMessage). q.message_pool) same) v.chain;
          alone = λ x. omega (arith, less x, v.alone x);
          known = λ x k. omega (arith, less x, v.known x k);
          held = λ j x.
              update_cases
                (λ (r : Pc).
                  holds r ≡ some x
                  → Held (pop s i node b) free nodes' (update owner node (some i)) j x)
                s.pc i p j
                (λ q k.
                  let here : node ≡ x = ground (arith, k) in
                  subst (λ y. Held (pop s i node b) free nodes' (update owner node (some i)) j y)
                    here
                    (record {
                      owned = ground (arith, q);
                      not_free = omega (arith, one, less node, v.alone node);
                      not_queued = omega (arith, one, less node, v.alone node);
                      made = elim (dec_lt node s.fresh) [
                        | yes lt ↦ lt
                        | no old ↦
                            absurd (omega (arith, one, less node, v.known node (omega arith)))
                      ];
                    }))
                (λ ne k.
                  let old = v.held j x k in
                  let apart : x ≢ node = λ q.
                    omega
                      (arith, less node, one, subst (λ y. count y nodes ≡ 0) q old.not_queued) in
                  record {
                    owned = ground (arith, old.owned);
                    not_free = old.not_free;
                    not_queued = omega (arith, less x, old.not_queued);
                    made = old.made;
                  });
        },
      )

  -- The node that a thread puts back on the stack is its own no more.
  pub put-Owned :
      (node : ℕ) (old_head : Option ℕ)
      → s.pc i ≡ swinging node old_head
      → s.mailbox.message_pool.free_list ≡ old_head
      → s.mailbox.message_pool.next node ≡ old_head
      → Owned cap (put s i node) (node ∷ free) nodes owner
  unfolding put
  put-Owned node old_head e head tail =
      let mine = v.held i node (ap holds e) in
      let other : (x : ℕ) → x ≢ node → count x (node ∷ free) ≡ count x free =
        λ x ne. ground arith in
      record {
        ring = v.ring;
        chain =
            (refl, subst (λ h. Chain s.mailbox.message_pool.next h free) (head ∙ sym tail) v.chain);
        alone = λ x. elim (ℕ_discrete x node) [
          | yes q ↦ rw q (ground (arith, mine.not_free, mine.not_queued))
          | no ne ↦ omega (arith, other x ne, v.alone x)
        ];
        known = λ x k. omega (arith, other x (λ q. omega (arith, q, mine.made)), v.known x k);
        held = λ j x.
            update_cases
              (λ (r : Pc). holds r ≡ some x → Held (put s i node) (node ∷ free) nodes owner j x)
              s.pc i idle j (λ q k. ground (arith, k))
              (λ ne k.
                let old = v.held j x k in
                let apart : x ≢ node = λ q. ne (ground (arith, q, mine.owned, old.owned)) in
                record {
                  owned = old.owned;
                  not_free = omega (arith, other x apart, old.not_free);
                  not_queued = old.not_queued;
                  made = old.made;
                });
      }
