-- ===== src/CenterFast/Rounds.antt =====
-- A round of the loop of src/messagecenter_fast.h takes the first of the waiting notices.
use message_center_cpp.Common.{
  ℕ, ◌+◌, ◌-◌, ◌%◌, ◌^◌, ◌≡◌, refl, ap, ◌∙◌, true, false, some, List, [], ◌∷◌, ◌++◌, length, count,
  leb, arith, ℕ_discrete,
}
use message_center_cpp.Mpmc.Arith.{IsCapacity}
use message_center_cpp.PoolLockFree
use message_center_cpp.Mailbox.{Outside, update}
use message_center_cpp.Mailbox.Queued.{Queued, pop-Queued, Queued-elsewhere, pop-nil}
use message_center_cpp.CenterFast.{
  fast_max_topics, MessageFast, CenterFast, owned, reset, dispatch, round,
}
use message_center_cpp.CenterFast.Delivery.{calls_to, call_all-calls_to}
use message_center_cpp.CenterFast.Notices.{
  Notice, Tells, AllTell, AllTell-length, blocks, box, Holding,
}

round_nothing :
    {cap : ℕ} (k : IsCapacity cap) (c : CenterFast) {free nodes : List ℕ} (ms : List MessageFast)
    → Queued cap (box c) free nodes ms
    → length ms ≡ 0
    → (out : Outside) → round cap c out ≡ some (false, c)
unfolding round
round_nothing k c [] q e out = rw (pop-nil k q out) refl
round_nothing k c (m ∷ ms) q e out = absurd (omega arith)

dispatch-Tells :
    {cap : ℕ} (k : IsCapacity cap) (c : CenterFast) (m : MessageFast) (n : Notice) (out : Outside)
    → Tells m n
    → dispatch c m ≡ calls_to n.topic_id n.bytes (c.observers n.topic_id)
unfolding dispatch
dispatch-Tells k c m n out w =
    let in_range : leb fast_max_topics m.topic_id ≡ false = ground (arith, w.known, w.topic) in
    rw in_range (
      call_all-calls_to k c n.topic_id n.bytes n.bytes out out m (c.observers m.topic_id) w.content
        w.size w.topic)
    ∙ ap (λ t. calls_to n.topic_id n.bytes (c.observers t)) w.topic

module _ {cap : ℕ} (k : IsCapacity cap) {kept : ℕ} {c : CenterFast} {free nodes : List ℕ} where
  pub round-nil :
      Holding cap kept c free nodes [] → (out : Outside) → round cap c out ≡ some (false, c)
  round-nil v out = round_nothing k c v.messages v.queued (AllTell-length v.messages [] v.told) out

  first_round :
      (ms : List MessageFast) (n : Notice) (ns : List Notice)
      → Queued cap (box c) free nodes ms
      → AllTell ms (n ∷ ns)
      → Holding cap kept c free nodes (n ∷ ns)
      → c.live_blocks ≡ kept + blocks ms
      → (out : Outside)
      → (c' : CenterFast) × (free' : List ℕ) × (nodes' : List ℕ) × (round cap c out
          ≡ some (true, c'))
        × Holding cap kept c' free' nodes' ns
        × (c'.calls ≡ c.calls ++ calls_to n.topic_id n.bytes (c.observers n.topic_id))
        × (c'.observers ≡ c.observers)
        × (c'.dispatched ≡ (c.dispatched + 1) % 2 ^ 64)
  unfolding round reset
  first_round [] n ns q t v l out = ground arith
  first_round (m ∷ ms) n ns q t v l out =
      let (node, ring, free', nodes', popped, at_node, split, absent, queued) =
        pop-Queued k q out in
      (
        record c {
          queue = ring;
          message_pool = PoolLockFree.release out.pool_failures c.message_pool (some node);
          messages = update c.messages node (reset m);
          live_blocks = c.live_blocks - owned m;
          dispatched = (c.dispatched + 1) % 2 ^ 64;
          calls = c.calls ++ calls_to n.topic_id n.bytes (c.observers n.topic_id);
        },
        free',
        nodes',
        rw (popped, at_node, dispatch-Tells k c m n out t.0) refl,
        record {
          messages = ms;
          queued = Queued-elsewhere k queued node (reset m) absent;
          told = t.1;
          clean = λ x e. elim (ℕ_discrete node x) [
            | yes same ↦
                let set_at : update c.messages node (reset m) x ≡ reset m = ground arith in
                ap (λ (m' : MessageFast). m'.managed_data) set_at
            | no ne ↦
                let kept_at : update c.messages node (reset m) x ≡ c.messages x = ground arith in
                let elsewhere : count x (node ∷ nodes') ≡ 0 = ground arith in
                ap (λ (m' : MessageFast). m'.managed_data) kept_at
                ∙ v.clean x (ap (count x) split ∙ elsewhere)
          ];
          live = omega (arith, l);
          counted = omega (arith, v.counted, v.word);
          word = omega arith;
        },
        refl,
        refl,
        refl,
      )

  -- A round calls every observer of the first notice's topic with its bytes, and frees its block.
  pub round-cons :
      (n : Notice) (ns : List Notice)
      → Holding cap kept c free nodes (n ∷ ns)
      → (out : Outside)
      → (c' : CenterFast) × (free' : List ℕ) × (nodes' : List ℕ) × (round cap c out
          ≡ some (true, c'))
        × Holding cap kept c' free' nodes' ns
        × (c'.calls ≡ c.calls ++ calls_to n.topic_id n.bytes (c.observers n.topic_id))
        × (c'.observers ≡ c.observers)
        × (c'.dispatched ≡ (c.dispatched + 1) % 2 ^ 64)
  round-cons n ns v out = first_round v.messages n ns v.queued v.told v v.live out

-- With no notice left, the blocks are the others.
pub Holding-nil_blocks :
    {cap kept : ℕ} {c : CenterFast} {free nodes : List ℕ}
    → Holding cap kept c free nodes []
    → c.live_blocks ≡ kept
Holding-nil_blocks v = omega (arith, v.live, empty_blocks v.messages v.told)
  where
    empty_blocks : (ms : List MessageFast) → AllTell ms [] → blocks ms ≡ 0
    empty_blocks [] w = refl
    empty_blocks (m ∷ ms) w = ground arith
