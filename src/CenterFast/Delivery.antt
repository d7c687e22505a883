-- ===== src/CenterFast/Delivery.antt =====
-- A post of src/messagecenter_fast.h, and the round that dispatches it.
use message_center_cpp.Common.{
  ℕ, ◌+◌, ◌-◌, ◌%◌, ◌^◌, ◌<◌, ◌≡◌, refl, true, false, Option, none, some, List, [], ◌∷◌, ◌++◌,
  length, leb, if◌then◌else◌, arith, lt→ltb, Bool-cases, Option-cases, inl, inr,
}
use message_center_cpp.Mpmc.Arith.{IsCapacity, capacity_bounds}
use message_center_cpp.Mpmc.Refine.{Contents, try_push-room, try_push-full, try_pop-cons}
use message_center_cpp.PoolLockFree
use message_center_cpp.Mailbox.{Outside, update}
use message_center_cpp.CenterFast.{
  fast_max_topics, fast_inline_size, MessageFast, ObserverEntryFast, CallFast, CenterFast, owned,
  reset, data_of, write, post, call_all, dispatch, round, pending,
}

-- The calls that the observers with a callback are to get, in the order of registration.
unfoldable pub calls_to : ℕ → List ℕ → List ObserverEntryFast → List CallFast
calls_to topic_id bytes [] = []
calls_to topic_id bytes (o ∷ os) =
    let rest = calls_to topic_id bytes os in
    elim o.callback [
      | none ↦ rest
      | some f ↦
          record { callback = f; topic_id = topic_id; bytes = bytes; size = length bytes } ∷ rest
    ]

module _ {cap : ℕ} (k : IsCapacity cap) (c : CenterFast) (topic_id : ℕ) (bytes stale : List ℕ)
    (out later : Outside) where
  unfoldable pub used : ℕ
  used = if leb (length bytes) fast_inline_size then 0 else 1

  pub owned-write :
      (old : MessageFast)
      → old.managed_data ≡ none
      → owned (write topic_id (some bytes) (length bytes) (some stale) old) ≡ used
  unfolding write used
  owned-write old clean = ground arith

  -- A post that finds the ring full says so, and gives everything back: the ring, the counters and
  -- the number of live blocks are what they were, whatever the size of the message.
  pub post-full :
      {xs : List (Option ℕ)}
      → topic_id < fast_max_topics
      → Contents cap c.queue xs
      → length xs ≡ cap
      → (c.messages (PoolLockFree.acquire out.pool_failures c.message_pool out.node).0).managed_data
        ≡ none
      → (c' : CenterFast) × (post cap c topic_id (some bytes) (length bytes) (some stale) out
          ≡ some (false, c'))
        × (c'.queue ≡ c.queue)
        × (pending c' ≡ pending c)
        × (c'.live_blocks ≡ c.live_blocks)
  unfolding post pending used
  post-full known v full clean =
      let acquired = PoolLockFree.acquire out.pool_failures c.message_pool out.node in
      let in_range : leb fast_max_topics topic_id ≡ false = ground arith in
      let m = write topic_id (some bytes) (length bytes) (some stale) (c.messages acquired.0) in
      let c' : CenterFast = record c {
        message_pool = PoolLockFree.release out.pool_failures acquired.1 (some acquired.0);
        messages = update c.messages acquired.0 (reset m);
        live_blocks = c.live_blocks + used - owned m;
      } in
      (
        c',
        rw (in_range, try_push-full k out.ring_failures (some acquired.0) v full) refl,
        refl,
        refl,
        omega (arith, owned-write (c.messages acquired.0) clean),
      )

  pub data_of-write :
      (old : MessageFast)
      → 0 < length bytes
      → data_of (write topic_id (some bytes) (length bytes) (some stale) old) ≡ bytes
  unfolding data_of write
  data_of-write old some_byte = elim (Bool-cases (leb (length bytes) fast_inline_size)) [
    | inl e ↦ rw (e, lt→ltb 0 (length bytes) some_byte) refl
    | inr e ↦ rw e refl
  ]

  pub size-write :
      (old : MessageFast)
      → length bytes < 2 ^ 32
      → ((write topic_id (some bytes) (length bytes) (some stale) old).size ≡ length bytes)
        × ((write topic_id (some bytes) (length bytes) (some stale) old).topic_id ≡ topic_id)
  unfolding write
  size-write old short = elim (Bool-cases (leb (length bytes) fast_inline_size)) [
    | inl e ↦ rw e (omega arith, refl)
    | inr e ↦ rw e (omega arith, refl)
  ]

  pub call_all-calls_to :
      (m : MessageFast) (os : List ObserverEntryFast)
      → data_of m ≡ bytes
      → m.size ≡ length bytes
      → m.topic_id ≡ topic_id
      → call_all m os ≡ calls_to topic_id bytes os
  unfolding call_all calls_to
  call_all-calls_to m [] d s t = refl
  call_all-calls_to m (o ∷ os) d s t = elim (Option-cases o.callback) [
    | inl e ↦ rw e (call_all-calls_to m os d s t)
    | inr (f, e) ↦ rw (e, d, s, t, call_all-calls_to m os d s t) refl
  ]

  dispatch-write :
      (q : CenterFast) (old : MessageFast)
      → topic_id < fast_max_topics
      → 0 < length bytes
      → length bytes < 2 ^ 32
      → dispatch q (write topic_id (some bytes) (length bytes) (some stale) old)
        ≡ calls_to topic_id bytes (q.observers topic_id)
  unfolding dispatch write
  dispatch-write q old known some_byte short =
      let m = write topic_id (some bytes) (length bytes) (some stale) old in
      let sized = size-write old short in
      let in_range : leb fast_max_topics topic_id ≡ false = ground arith in
      rw (sized.1, in_range)
        (call_all-calls_to m (q.observers topic_id) (data_of-write old some_byte) sized.0 sized.1)

  -- A post of some bytes on an empty ring goes through, and the next round of the loop calls every
  -- observer that the topic has with these bytes. After the round the ring is empty, the message
  -- counts as posted and as dispatched, and no block is left.
  pub round-post :
      topic_id < fast_max_topics
      → 0 < length bytes
      → length bytes < 2 ^ 32
      → (c.messages (PoolLockFree.acquire out.pool_failures c.message_pool out.node).0).managed_data
        ≡ none
      → Contents cap c.queue []
      → (c' : CenterFast) × (c'' : CenterFast) × (post cap c topic_id
            (some bytes)
            (length bytes)
            (some stale)
            out
          ≡ some (true, c'))
        × (round cap c' later ≡ some (true, c''))
        × (c''.calls ≡ c.calls ++ calls_to topic_id bytes (c.observers topic_id))
        × Contents cap c''.queue []
        × (c''.posted ≡ (c.posted + 1) % 2 ^ 64)
        × (c''.dispatched ≡ (c.dispatched + 1) % 2 ^ 64)
        × (c''.live_blocks ≡ c.live_blocks)
  unfolding post round used
  round-post known some_byte short clean v =
      let acquired = PoolLockFree.acquire out.pool_failures c.message_pool out.node in
      let in_range : leb fast_max_topics topic_id ≡ false = ground arith in
      let m = write topic_id (some bytes) (length bytes) (some stale) (c.messages acquired.0) in
      let (ring, pushed, w) =
        try_push-room k out.ring_failures (some acquired.0) v (omega (arith, capacity_bounds k)) in
      let (ring', popped, u) = try_pop-cons k later.ring_failures none w in
      let written : update c.messages acquired.0 m acquired.0 ≡ m = ground arith in
      let c' : CenterFast = record c {
        queue = ring;
        message_pool = acquired.1;
        messages = update c.messages acquired.0 m;
        live_blocks = c.live_blocks + used;
        posted = (c.posted + 1) % 2 ^ 64;
      } in
      let c'' : CenterFast = record c' {
        queue = ring';
        message_pool = PoolLockFree.release later.pool_failures acquired.1 (some acquired.0);
        messages = update c'.messages acquired.0 (reset m);
        live_blocks = c.live_blocks + used - owned m;
        dispatched = (c.dispatched + 1) % 2 ^ 64;
        calls = c.calls ++ calls_to topic_id bytes (c.observers topic_id);
      } in
      (
        c',
        c'',
        rw (in_range, pushed) refl,
        rw (popped, written, dispatch-write c' (c.messages acquired.0) known some_byte short) refl,
        refl,
        u,
        refl,
        refl,
        omega (arith, owned-write (c.messages acquired.0) clean),
      )
