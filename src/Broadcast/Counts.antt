-- ===== src/Broadcast/Counts.antt =====
-- The references of a payload in src/eventqueue_broadcast.h: how many `post` takes, and how many
-- `dispatchOne` releases.
use message_center_cpp.Common.{
  ℕ, zero, suc, ◌+◌, ◌^◌, ◌≤◌, ◌<◌, ◌≡◌, refl, ◌∙◌, false, none, some, List, [], ◌∷◌, length, map,
  leb, arith,
}
use message_center_cpp.Payload.{Payload, Store, releases}
use message_center_cpp.Payload.Lifetime.{with_refs, Leaves, release_lem, created, same_refs}
use message_center_cpp.Mailbox.{Outside}
use message_center_cpp.Message.Compose.{make_payload_lem}
use message_center_cpp.Broadcast.{
  inline_payload_max, BroadcastMessage, BroadcastCall, prepare, data_of, release_refs, call_all,
  deliver,
}

-- The call that an observer is to get for a message.
abbrev pub call_of : BroadcastMessage → List ℕ → ℕ → BroadcastCall
call_of m bytes o = record {
  callback = o;
  topic_id = m.topic_id;
  bytes = bytes;
  size = m.payload_size;
}

call_all-managed :
    (m : BroadcastMessage) (os : List ℕ) (s : Store) (p n : ℕ) (v : Payload)
    → m.is_inline ≡ false
    → m.managed ≡ some p
    → s p ≡ with_refs v (length os + n)
    → length os + n < 2 ^ 31
    → (t : Store) × (call_all m os s ≡ some (map (call_of m v.bytes) os, t)) × Leaves s p v n t
unfolding call_all data_of release_refs releases
call_all-managed m [] s p n v e f live small = (
  s,
  refl,
  record {
    at_p = live ∙ same_refs v (length {A = ℕ} [] + n) n (omega arith);
    elsewhere = λ q ne. refl;
  },
)
call_all-managed m (o ∷ os) s p n v e f live small =
    let now = live ∙ same_refs v (length (o ∷ os) + n) (suc (length os + n)) (omega arith) in
    let (s1, e1, l1) = release_lem s p (length os + n) v now (omega arith) in
    let (t, e2, l2) = call_all-managed m os s1 p n v e f l1.at_p (omega arith) in
    (
      t,
      rw (e, f, now, e1, e2) refl,
      record { at_p = l2.at_p; elsewhere = λ q ne. l2.elsewhere q ne ∙ l1.elsewhere q ne },
    )

call_all_overrun :
    (m : BroadcastMessage) (os : List ℕ) (s : Store) (p n : ℕ) (v : Payload)
    → m.is_inline ≡ false
    → m.managed ≡ some p
    → s p ≡ with_refs v n
    → n < length os
    → n < 2 ^ 31
    → call_all m os s ≡ none
unfolding call_all data_of release_refs releases
call_all_overrun m [] s p n v e f live over small = absurd (omega arith)
call_all_overrun m (o ∷ os) s p zero v e f live over small = rw (e, f, live) refl
call_all_overrun m (o ∷ os) s p (suc n) v e f live over small =
    let (s1, e1, l1) = release_lem s p n v live (omega arith) in
    rw (e, f, live, e1, call_all_overrun m os s1 p n v e f l1.at_p (omega arith) (omega arith)) refl

module _ (payloads : Store) (topic_id : ℕ) (bytes : List ℕ) (out : Outside)
    (old : BroadcastMessage) where
  abbrev shared_message : ℕ → BroadcastMessage
  shared_message count = record old {
    topic_id = topic_id;
    observer_count = count;
    payload_size = length bytes;
    is_inline = false;
    managed = some out.payload;
  }

  prepare-shared :
      (count : ℕ)
      → 0 < count
      → count ≤ 255
      → inline_payload_max < length bytes
      → (s : Store) × (prepare payloads topic_id count (some bytes) (length bytes) out old
          ≡ some (shared_message count, s))
        × Leaves payloads out.payload (created payloads out.payload bytes) count s
  unfolding prepare
  prepare-shared count some_one few big =
      let (s, made, l) = make_payload_lem payloads out.payload count bytes some_one (omega arith) in
      let large : leb (length bytes) inline_payload_max ≡ false = ground arith in
      (s, rw (large, made) refl, l)

  -- A shared payload that is posted for `n` observers more than those to which it is dispatched:
  -- each of the latter is called with the bytes, in order, and the payload keeps `n` references
  -- that nothing releases. For `n` 0, as where no observer comes or goes in between, it is freed. No
  -- other payload changes.
  pub deliver-prepare :
      (os : List ℕ) (n : ℕ)
      → 0 < length os + n
      → length os + n ≤ 255
      → inline_payload_max < length bytes
      → (m : BroadcastMessage) × (s t : Store) × (prepare payloads topic_id
            (length os + n)
            (some bytes)
            (length bytes)
            out
            old
          ≡ some (m, s))
        × (deliver m (some os) s ≡ some (map (call_of m bytes) os, t))
        × Leaves payloads out.payload (created payloads out.payload bytes) n t
  unfolding deliver
  deliver-prepare os n some_one few big =
      let (s, made, l) = prepare-shared (length os + n) some_one few big in
      let (t, called, k) =
        call_all-managed (shared_message (length os + n)) os s out.payload n
          (created payloads out.payload bytes) refl refl l.at_p (omega arith) in
      (
        shared_message (length os + n),
        s,
        t,
        made,
        called,
        record { at_p = k.at_p; elsewhere = λ q ne. k.elsewhere q ne ∙ l.elsewhere q ne },
      )

  -- A shared payload that is dispatched to more observers than it was posted for, as where one is
  -- added in between, or where the topic has more than the 255 that are counted: the dispatch
  -- reads the payload after it has been freed.
  pub deliver-prepare_overrun :
      (os : List ℕ) (n : ℕ)
      → 0 < n
      → n ≤ 255
      → n < length os
      → inline_payload_max < length bytes
      → (m : BroadcastMessage) × (s : Store) × (prepare payloads topic_id n
            (some bytes)
            (length bytes)
            out
            old
          ≡ some (m, s))
        × (deliver m (some os) s ≡ none)
  unfolding deliver
  deliver-prepare_overrun os n some_one few more big =
      let (s, made, l) = prepare-shared n some_one few big in
      (
        shared_message n,
        s,
        made,
        call_all_overrun (shared_message n) os s out.payload n (created payloads out.payload bytes)
            refl refl l.at_p more (omega arith),
      )
