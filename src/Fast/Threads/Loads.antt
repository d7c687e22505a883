-- ===== src/Fast/Threads/Loads.antt =====
-- A message of src/eventqueue_fast.h that carries a letter, and the references that are left of its
-- payload.
use message_center_cpp.Common.{
  ℕ, zero, suc, ◌<◌, ◌^◌, ◌≡◌, ◌≢◌, refl, sym, ap, ◌∙◌, ◌⊎◌, inl, inr, true, false, none, some,
  take, length, arith,
}
use message_center_cpp.Payload.{Payload, Store}
use message_center_cpp.Payload.Lifetime.{with_refs, release_lem}
use message_center_cpp.Message.{FastMessage, data_of, release_one}
use message_center_cpp.Message.Letters.{Letter, shared, Carries}

-- The payload of the message has the bytes of the letter and `n` references.
pub record Shares (s : Store) (m : FastMessage) (l : Letter) (n : ℕ) : Type 0 where
  pub payload : ℕ
  pub value : Payload
  pub not_inline : m.is_inline ≡ false
  pub points : m.managed ≡ some payload
  pub live : s payload ≡ with_refs value n
  pub bytes : value.bytes ≡ l.bytes

-- The message says what the letter says, for `n` more calls.
pub record Load (s : Store) (m : FastMessage) (l : Letter) (n : ℕ) : Type 0 where
  pub topic : m.topic_id ≡ l.topic_id
  pub observers : m.observers ≡ l.observers
  pub size : m.payload_size ≡ length l.bytes
  pub content :
      ((m.is_inline ≡ true) × (take m.payload_size m.inline_data ≡ l.bytes)) ⊎ Shares s m l n

pub Carries-Load :
    {before s : Store} {m : FastMessage} {l : Letter}
    → Carries before s m l
    → Load s m l (length l.observers)
Carries-Load v = record {
  topic = v.topic;
  observers = v.observers;
  size = v.size;
  content = elim v.content [
    | inl i ↦ inl i
    | inr w ↦ inr (record {
      payload = w.payload;
      value = w.value;
      not_inline = w.not_inline;
      points = w.points;
      live = w.live;
      bytes = w.bytes;
    })
  ];
}

Shares-shared :
    {s : Store} {m : FastMessage} {l : Letter} {n : ℕ} (w : Shares s m l n)
    → shared m ≡ some w.payload
Shares-shared w = rw w.not_inline w.points

with_refs-live : (v : Payload) (n : ℕ) → 0 < n → with_refs v n ≢ none
with_refs-live v zero h = absurd (omega arith)
with_refs-live v (suc n) h = λ e. ground (arith, e)

pub Load-live :
    {s : Store} {m : FastMessage} {l : Letter} {n p : ℕ}
    → Load s m l n
    → 0 < n
    → shared m ≡ some p
    → s p ≢ none
Load-live {s} {m} {l} {n} {p} v some_call e = elim v.content [
  | inl i ↦ ground (arith, i.0)
  | inr w ↦
      let same : w.payload ≡ p = ground (arith, e, Shares-shared w) in
      λ dead. with_refs-live w.value n some_call (sym w.live ∙ ap s same ∙ dead)
]

pub Load-kept :
    {s : Store} (t : Store) {m : FastMessage} {l : Letter} {n : ℕ}
    → Load s m l n
    → ((p : ℕ) → shared m ≡ some p → t p ≡ s p)
    → Load t m l n
Load-kept t v kept = record {
  topic = v.topic;
  observers = v.observers;
  size = v.size;
  content = elim v.content [
    | inl i ↦ inl i
    | inr w ↦ inr (record {
      payload = w.payload;
      value = w.value;
      not_inline = w.not_inline;
      points = w.points;
      live = kept w.payload (Shares-shared w) ∙ w.live;
      bytes = w.bytes;
    })
  ];
}

-- A call reads the bytes of the letter.
pub data_of-Load :
    {s : Store} {m : FastMessage} {l : Letter} {n : ℕ}
    → Load s m l (suc n)
    → data_of m s ≡ some l.bytes
unfolding data_of
data_of-Load v = elim v.content [
  | inl i ↦ rw (i.0, i.1) refl
  | inr w ↦ rw (w.not_inline, w.points, w.live, w.bytes) refl
]

-- What the release after a call leaves: one reference less, no other payload touched, and none made.
pub record Released (s : Store) (m : FastMessage) (l : Letter) (n : ℕ) (t : Store) : Type 0 where
  pub still : Load t m l n
  pub others : (p : ℕ) → shared m ≢ some p → t p ≡ s p
  pub unborn : (p : ℕ) → s p ≡ none → t p ≡ none

pub release_one-Load :
    {s : Store} {m : FastMessage} {l : Letter} (n : ℕ)
    → Load s m l (suc n)
    → n < 2 ^ 31
    → (t : Store) × (release_one m s ≡ some t) × Released s m l n t
unfolding release_one
release_one-Load {s} {m} {l} n v few = elim v.content [
  | inl i ↦ (
    s,
    rw i.0 refl,
    record {
      still = record { topic = v.topic; observers = v.observers; size = v.size; content = inl i };
      others = λ p ne. refl;
      unborn = λ p e. e;
    },
  )
  | inr w ↦
      let (t, e, left) = release_lem s w.payload n w.value w.live few in
      (
        t,
        rw (w.not_inline, w.points) e,
        record {
          still = record {
            topic = v.topic;
            observers = v.observers;
            size = v.size;
            content = inr (record {
              payload = w.payload;
              value = w.value;
              not_inline = w.not_inline;
              points = w.points;
              live = left.at_p;
              bytes = w.bytes;
            });
          };
          others = λ p ne. left.elsewhere p (λ same. ne (Shares-shared w ∙ ap some (sym same)));
          unborn = λ p dead.
              left.elsewhere p (λ same.
                with_refs-live w.value (suc n) (omega arith) (sym w.live ∙ ap s (sym same) ∙ dead))
              ∙ dead;
        },
      )
]

-- After the last call there is no payload left.
pub Load-freed :
    {s : Store} {m : FastMessage} {l : Letter} {p : ℕ}
    → Load s m l 0
    → shared m ≡ some p
    → s p ≡ none
Load-freed {s} {m} {l} {p} v e = elim v.content [
  | inl i ↦ ground (arith, e, i.0)
  | inr w ↦
      let same : w.payload ≡ p = ground (arith, e, Shares-shared w) in ap s (sym same) ∙ w.live
]
