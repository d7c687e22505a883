-- ===== src/Fast/Threads/Nodes.antt =====
-- The owner of a node of src/eventqueue_fast.h: the pool, the ring, or one thread.
use message_center_cpp.Common.{
  ℕ, ◌+◌, ◌<◌, ◌≤◌, ◌≡◌, ◌≢◌, refl, sym, ap, subst, ◌∙◌, Option, none, some, List, [], ◌∷◌, map,
  count, arith, ℕ_discrete, dec_lt,
}
use message_center_cpp.Message.{FastObserver}
use message_center_cpp.Mpmc.Arith.{IsCapacity}
use message_center_cpp.Mpmc.Invariant.{init-Holds}
use message_center_cpp.Mpmc.Refine.{Contents}
use message_center_cpp.Mpmc.Threads.Invariant.{update_cases}
use message_center_cpp.PoolLockFree
use message_center_cpp.PoolLockFree.Owners.{Chain}
use message_center_cpp.Mailbox.{update}
use message_center_cpp.Fast.Threads.{
  Pc, filling, pushing, calling, releasing, deleting, returning, linking, swinging, System, gain,
  Begins,
}

-- the node that a thread holds
abbrev pub holds : Pc → Option ℕ
holds (filling node os topic_id bytes) = some node
holds (pushing node l) = some node
holds (calling node pos rest) = some node
holds (releasing node pos rest) = some node
holds (deleting node) = some node
holds (returning node) = some node
holds (linking node old_head) = some node
holds (swinging node old_head) = some node
holds _ = none

-- Node `x` is that of thread `i` alone.
pub record Held (s : System) (free nodes : List ℕ) (owner : ℕ → Option ℕ) (i x : ℕ) : Type 0 where
  pub owned : owner x ≡ some i
  pub not_free : count x free ≡ 0
  pub not_queued : count x nodes ≡ 0
  pub made : x < s.fresh

pub record Owned (cap : ℕ) (s : System) (free nodes : List ℕ) (owner : ℕ → Option ℕ) : Type 0 where
  pub ring : Contents cap s.mailbox.queue (map some nodes)
  pub chain : Chain s.mailbox.message_pool.next s.mailbox.message_pool.free_list free
  pub alone : (x : ℕ) → count x free + count x nodes ≤ 1
  pub known : (x : ℕ) → s.fresh ≤ x → count x free + count x nodes ≡ 0
  pub held : (i x : ℕ) → holds (s.pc i) ≡ some x → Held s free nodes owner i x

pub begin-Owned :
    {cap : ℕ} (c : IsCapacity cap) {s : System} (free : List ℕ)
    → Begins cap s free
    → Owned cap s free [] (λ _. none)
begin-Owned {cap} c {s} free v = record {
  ring = subst (λ r. Contents cap r []) (sym v.ring) (0, init-Holds c none);
  chain = v.pool;
  alone = λ x. omega (arith, v.alone x);
  known = λ x h. omega (arith, v.known x h);
  held = λ i x e. ground (arith, v.all_idle i);
}

module _ {cap : ℕ} {s : System} {free nodes : List ℕ} {owner : ℕ → Option ℕ}
    (v : Owned cap s free nodes owner) (i : ℕ) where
  -- Thread `i` goes on with the node that it has, or with none.
  pub stay-Held :
      (p : Pc)
      → ((x : ℕ) → holds p ≡ some x → holds (s.pc i) ≡ some x)
      → (j x : ℕ) → holds (update s.pc i p j) ≡ some x
      → Held s free nodes owner j x
  stay-Held p same j x =
      update_cases (λ (r : Pc). holds r ≡ some x → Held s free nodes owner j x) s.pc i p j
        (λ e h. subst (λ k. Held s free nodes owner k x) e (v.held i x (same x h)))
        (λ ne h. v.held j x h)

  -- Two threads have different nodes.
  pub one_owner : (j x : ℕ) → holds (s.pc i) ≡ some x → holds (s.pc j) ≡ some x → i ≡ j
  one_owner j x e f = ground (arith, (v.held i x e).owned, (v.held j x f).owned)

  alone_with_new : (x : ℕ) → count x free + count x (s.fresh ∷ []) + count x nodes ≤ 1
  alone_with_new x = elim (ℕ_discrete x s.fresh) [
    | yes e ↦ rw e (ground (arith, v.known s.fresh (omega arith)))
    | no ne ↦ ground (arith, v.alone x)
  ]

  not_new : (x : ℕ) → x ≢ s.fresh → count x (s.fresh ∷ []) ≡ 0
  not_new x ne = ground arith

  -- a node that the pool gave, or that was made, is that of thread `i` now
  given_Held :
      (free' : List ℕ) (node : ℕ)
      → ((x : ℕ) → count x free' + count x (node ∷ []) ≤ count x free + count x (s.fresh ∷ []))
      → (t : System) → t.fresh ≡ s.fresh + 1
      → (j x : ℕ) → (i ≡ j → holds (t.pc j) ≡ some x → x ≡ node)
      → (i ≢ j → holds (t.pc j) ≡ some x → holds (s.pc j) ≡ some x)
      → holds (t.pc j) ≡ some x
      → Held t free' nodes (update owner node (some i)) j x
  given_Held free' node from t grown j x own other h =
      let here : count node (node ∷ []) ≡ 1 = ground arith in
      elim (ℕ_discrete i j) [
        | yes e ↦
            let same = own e h in
            let young : node < s.fresh + 1 = elim (dec_lt node (s.fresh + 1)) [
              | yes lt ↦ lt
              | no old ↦ absurd (
                  omega (
                    arith,
                    from node,
                    here,
                    v.known node (omega arith),
                    not_new node (λ q. omega (arith, q)),
                  ))
            ] in
            subst (λ y. Held t free' nodes (update owner node (some i)) j y) (sym same)
              (record {
                owned = ground (arith, e);
                not_free = omega (arith, from node, here, alone_with_new node);
                not_queued = omega (arith, from node, here, alone_with_new node);
                made = omega (arith, grown, young);
              })
        | no ne ↦
            let old = v.held j x (other ne h) in
            let unmade : count x (s.fresh ∷ []) ≡ 0 = not_new x (λ q. omega (arith, q, old.made)) in
            let apart : x ≢ node = λ q.
              (omega (
                arith,
                from x,
                old.not_free,
                unmade,
                subst (λ y. count y (node ∷ []) ≡ 1) (sym q) here,
              )) in
            record {
              owned = ground (arith, old.owned);
              not_free = omega (arith, from x, old.not_free, unmade);
              not_queued = old.not_queued;
              made = omega (arith, grown, old.made);
            }
      ]

  pub gain-Owned :
      (node : ℕ) (pool : PoolLockFree.Pool) (os : List FastObserver) (topic_id : ℕ)
      (bytes : Option (List ℕ)) (free' : List ℕ)
      → Chain pool.next pool.free_list free'
      → ((x : ℕ) → count x free' + count x (node ∷ []) ≤ count x free + count x (s.fresh ∷ []))
      → Owned cap (gain s i node pool os topic_id bytes) free' nodes (update owner node (some i))
  unfolding gain
  gain-Owned node pool os topic_id bytes free' chained from =
      let p = filling node os topic_id bytes in
      record {
        ring = v.ring;
        chain = chained;
        alone = λ x. omega (arith, from x, alone_with_new x);
        known = λ x h.
            omega (arith, from x, v.known x (omega arith), not_new x (λ q. omega (arith, q)));
        held = λ j x.
            given_Held free' node from (gain s i node pool os topic_id bytes) refl j x
              (update_cases (λ (r : Pc). i ≡ j → holds r ≡ some x → x ≡ node) s.pc i p j
                (λ same q h. ground (arith, h)) (λ ne q h. absurd (ne q)))
              (update_cases (λ (r : Pc). i ≢ j → holds r ≡ some x → holds (s.pc j) ≡ some x) s.pc i
                p j (λ same ne h. absurd (ne same)) (λ ne q h. h));
      }

  -- A thread that goes on with its node or leaves it, while nothing happens to the ring, and the free
  -- nodes stay the same.
  pub relink-Owned :
      (p : Pc)
      → ((x : ℕ) → holds p ≡ some x → holds (s.pc i) ≡ some x)
      → (t : System) → t.pc ≡ update s.pc i p
      → t.mailbox.queue ≡ s.mailbox.queue
      → Chain t.mailbox.message_pool.next t.mailbox.message_pool.free_list free
      → s.fresh ≤ t.fresh
      → Owned cap t free nodes owner
  relink-Owned p same t pcs queue chained grown = record {
    ring = subst (λ r. Contents cap r (map some nodes)) (sym queue) v.ring;
    chain = chained;
    alone = v.alone;
    known = λ x h. v.known x (omega arith);
    held = λ j x h.
        let old = stay-Held p same j x (ap (λ f. holds (f j)) (sym pcs) ∙ h) in
        record {
          owned = old.owned;
          not_free = old.not_free;
          not_queued = old.not_queued;
          made = omega (arith, old.made);
        };
  }

  -- a thread that goes on with its node, while nothing happens to the ring and the pool
  pub stay-Owned :
      (p : Pc)
      → ((x : ℕ) → holds p ≡ some x → holds (s.pc i) ≡ some x)
      → (t : System) → t.pc ≡ update s.pc i p
      → t.mailbox.queue ≡ s.mailbox.queue
      → t.mailbox.message_pool ≡ s.mailbox.message_pool
      → s.fresh ≤ t.fresh
      → Owned cap t free nodes owner
  stay-Owned p same t pcs queue pool grown =
      relink-Owned p same t pcs queue
        (subst (λ (q : PoolLockFree.Pool). Chain q.next q.free_list free) (sym pool) v.chain) grown
