-- ===== src/Message/Letters.antt =====
-- Which letters the messages in a mailbox carry, and what a dispatch makes of them.
use message_center_cpp.Common.{
  ℕ, zero, suc, ◌^◌, ◌<◌, ◌≡◌, ◌≢◌, refl, sym, ap, ◌∙◌, ◌⊎◌, true, false, Option, none, some, List,
  [], ◌∷◌, ◌++◌, length, map, take, if◌then◌else◌, arith, inl, inr,
}
use message_center_cpp.Payload.{Payload, Store}
use message_center_cpp.Payload.Lifetime.{with_refs, Leaves, release_lem}
use message_center_cpp.Message.{FastObserver, FastMessage, FastCall, data_of, release_one, call_all}

-- What a post sends: the observers are those of the topic at the post.
pub record Letter : Type 0 where
  pub topic_id : ℕ
  pub bytes : List ℕ
  pub observers : List FastObserver

-- The call that an observer is to get.
abbrev pub call_of : Letter → FastObserver → FastCall
call_of l o = record {
  callback = o.callback;
  topic_id = l.topic_id;
  bytes = l.bytes;
  size = length l.bytes;
  user_data = o.user_data;
}

abbrev pub calls_of : Letter → List FastCall
calls_of l = map (call_of l) l.observers

-- the calls for some letters, one letter after the other
abbrev pub all_calls : List Letter → List FastCall
all_calls [] = []
all_calls (l ∷ ls) = calls_of l ++ all_calls ls

-- The bytes behind a pointer, of which there are none behind a null pointer.
abbrev pub bytes_at : Option (List ℕ) → List ℕ
bytes_at none = []
bytes_at (some bytes) = bytes

-- The payload that a message owns references of.
abbrev pub shared : FastMessage → Option ℕ
shared m = if m.is_inline then none else m.managed

-- A payload of the store has the bytes, and a reference for each of the observers. `before` is what
-- the store holds for others.
pub record Owns (before s : Store) (m : FastMessage) (l : Letter) : Type 0 where
  pub payload : ℕ
  pub value : Payload
  pub not_inline : m.is_inline ≡ false
  pub points : m.managed ≡ some payload
  pub live : s payload ≡ with_refs value (length l.observers)
  pub bytes : value.bytes ≡ l.bytes
  pub observed : 0 < length l.observers
  pub few : length l.observers < 2 ^ 31
  pub new : before payload ≡ none

-- The message says what the letter says, in itself or in a payload.
pub record Carries (before s : Store) (m : FastMessage) (l : Letter) : Type 0 where
  pub topic : m.topic_id ≡ l.topic_id
  pub observers : m.observers ≡ l.observers
  pub size : m.payload_size ≡ length l.bytes
  pub content :
      ((m.is_inline ≡ true) × (take m.payload_size m.inline_data ≡ l.bytes)) ⊎ Owns before s m l

Owns-shared :
    {before s : Store} {m : FastMessage} {l : Letter} (w : Owns before s m l)
    → shared m ≡ some w.payload
Owns-shared w = rw w.not_inline w.points

with_refs-live : (v : Payload) (n : ℕ) → 0 < n → with_refs v n ≢ none
with_refs-live v zero h = absurd (omega arith)
with_refs-live v (suc n) h = λ e. ground (arith, e)

module _ {before : Store} where
  pub Carries-live :
      {s : Store} {m : FastMessage} {l : Letter} {p : ℕ}
      → Carries before s m l
      → shared m ≡ some p
      → s p ≢ none
  Carries-live {s} {m} {l} {p} v e = elim v.content [
    | inl i ↦ ground (arith, i.0)
    | inr w ↦
        let same : w.payload ≡ p = ground (arith, e, Owns-shared w) in
        λ dead.
          with_refs-live w.value (length l.observers) w.observed (sym w.live ∙ ap s same ∙ dead)
  ]

  pub Carries-kept :
      {s : Store} (t : Store) {m : FastMessage} {l : Letter}
      → Carries before s m l
      → ((p : ℕ) → shared m ≡ some p → t p ≡ s p)
      → Carries before t m l
  Carries-kept t v kept = record {
    topic = v.topic;
    observers = v.observers;
    size = v.size;
    content = elim v.content [
      | inl i ↦ inl i
      | inr w ↦ inr (record {
        payload = w.payload;
        value = w.value;
        not_inline = w.not_inline;
        points = w.points;
        live = kept w.payload (Owns-shared w) ∙ w.live;
        bytes = w.bytes;
        observed = w.observed;
        few = w.few;
        new = w.new;
      })
    ];
  }

call_all-inline :
    (m : FastMessage) (os : List FastObserver) (s : Store) (l : Letter)
    → m.is_inline ≡ true
    → m.topic_id ≡ l.topic_id
    → m.payload_size ≡ length l.bytes
    → take m.payload_size m.inline_data ≡ l.bytes
    → call_all m os s ≡ some (map (call_of l) os, s)
unfolding call_all data_of release_one
call_all-inline m [] s l e et es ed = refl
call_all-inline m (o ∷ os) s l e et es ed =
    rw (e, call_all-inline m os s l e et es ed, ed, et, es) refl

call_all-managed :
    (m : FastMessage) (os : List FastObserver) (s : Store) (p : ℕ) (v : Payload) (l : Letter)
    → m.is_inline ≡ false
    → m.managed ≡ some p
    → m.topic_id ≡ l.topic_id
    → m.payload_size ≡ length l.bytes
    → v.bytes ≡ l.bytes
    → s p ≡ with_refs v (length os)
    → length os < 2 ^ 31
    → (t : Store) × (call_all m os s ≡ some (map (call_of l) os, t)) × Leaves s p v 0 t
unfolding call_all data_of release_one
call_all-managed m [] s p v l e f et es eb live small =
    (s, refl, record { at_p = live; elsewhere = λ q ne. refl })
call_all-managed m (o ∷ os) s p v l e f et es eb live small =
    let (s1, e1, l1) = release_lem s p (length os) v live (omega arith) in
    let (t, e2, l2) = call_all-managed m os s1 p v l e f et es eb l1.at_p (omega arith) in
    (
      t,
      rw (e, f, live, e1, e2, et, es, eb) refl,
      record { at_p = l2.at_p; elsewhere = λ q ne. l2.elsewhere q ne ∙ l1.elsewhere q ne },
    )

-- `t` is `s` without the payload that the message shares, in whose place stands what was there before.
pub record Spent (before s : Store) (m : FastMessage) (t : Store) : Type 0 where
  pub others : (p : ℕ) → shared m ≢ some p → t p ≡ s p
  pub own : (p : ℕ) → shared m ≡ some p → t p ≡ before p

-- The dispatch of a message calls every observer of its letter once, in order, with the bytes, and
-- frees its payload.
pub call_all-Carries :
    {before s : Store} {m : FastMessage} {l : Letter}
    → Carries before s m l
    → (t : Store) × (call_all m m.observers s ≡ some (calls_of l, t)) × Spent before s m t
call_all-Carries {before} {s} {m} {l} v = elim v.content [
  | inl i ↦ (
    s,
    ap (λ os. call_all m os s) v.observers
        ∙ call_all-inline m l.observers s l i.0 v.topic v.size i.1,
    record { others = λ p ne. refl; own = λ p e. ground (arith, i.0, e) },
  )
  | inr w ↦
      let (t, e, done) =
        call_all-managed m l.observers s w.payload w.value l w.not_inline w.points v.topic v.size
          w.bytes w.live w.few in
      (
        t,
        ap (λ os. call_all m os s) v.observers ∙ e,
        record {
          others = λ p ne. done.elsewhere p (λ same. ne (Owns-shared w ∙ ap some (sym same)));
          own = λ p sh.
              let same : p ≡ w.payload = ground (arith, sh, Owns-shared w) in
              rw same (done.at_p ∙ sym w.new);
        },
      )
]
