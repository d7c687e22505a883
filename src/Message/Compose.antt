-- ===== src/Message/Compose.antt =====
-- What `post` writes to a message, and to the store, carries the bytes that are posted.
use message_center_cpp.Common.{
  ℕ, zero, suc, ◌^◌, ◌≤◌, ◌<◌, ◌≡◌, ◌≢◌, refl, sym, ap, true, false, Option, none, some, List, [],
  ◌∷◌, length, take, take-length, leb, arith, Bool-cases, lt→ltb, inl, inr,
}
use message_center_cpp.Payload
use message_center_cpp.Payload.{Payload, Store}
use message_center_cpp.Payload.Lifetime.{Leaves, created, made_for, create-Leaves}
use message_center_cpp.Message.{
  inline_max, FastObserver, FastMessage, make_payload, copy_inline, compose,
}
use message_center_cpp.Message.Letters.{bytes_at, shared, Carries}

pub make_payload_lem :
    (s : Store) (p count : ℕ) (bytes : List ℕ)
    → 0 < count
    → count < 2 ^ 31
    → (s' : Store) × (make_payload s p count (some bytes) (length bytes) ≡ some s')
      × Leaves s p (created s p bytes) count s'
unfolding make_payload
make_payload_lem s p zero bytes some_refs small = absurd (omega arith)
make_payload_lem s p (suc zero) bytes some_refs small =
    rw (take-length bytes) (Payload.create s p bytes, refl, create-Leaves s p bytes)
make_payload_lem s p (suc (suc n)) bytes some_refs small =
    let (s', e, l) = made_for s p bytes (suc n) (omega arith) in
    (s', rw (take-length bytes) (ground (arith, e)), l)

pub copy_inline_lem :
    (bytes : Option (List ℕ)) (old : List ℕ)
    → take (length (bytes_at bytes)) (copy_inline bytes (length (bytes_at bytes)) old)
      ≡ bytes_at bytes
unfolding copy_inline
copy_inline_lem none old = refl
copy_inline_lem (some []) old = refl
copy_inline_lem (some (x ∷ xs)) old =
    rw (lt→ltb 0 (length (x ∷ xs)) (omega arith), take-length xs) (take-length (x ∷ xs))

-- What `post` has written for some bytes, when it carries them.
abbrev pub Composed :
    Store → Store → List FastObserver → ℕ → ℕ → FastMessage → Option (List ℕ) → Type 0
Composed before s os topic_id payload old bytes =
    (m : FastMessage) × (t : Store) × (compose s os topic_id bytes (length (bytes_at bytes)) payload
        old
      ≡ some (m, t))
    × Carries before t m (record { topic_id = topic_id; bytes = bytes_at bytes; observers = os })
    × ((p : ℕ) → shared m ≡ some p → s p ≡ none)
    × ((p : ℕ) → shared m ≢ some p → t p ≡ s p)
    × ((p : ℕ) → shared m ≡ some p → p ≡ payload)

module _ (before s : Store) (os : List FastObserver) (topic_id payload : ℕ) (old : FastMessage)
    (free : s payload ≡ none) (new : before payload ≡ none) (observed : 0 < length os)
    (few : length os ≤ 255) where
  compose-inline :
      (bytes : Option (List ℕ))
      → leb (length (bytes_at bytes)) inline_max ≡ true
      → Composed before s os topic_id payload old bytes
  unfolding compose
  compose-inline bytes e = rw e (
    _,
    s,
    refl,
    record {
      topic = refl;
      observers = refl;
      size = refl;
      content = inl (refl, copy_inline_lem bytes old.inline_data);
    },
    λ p sh. ground (arith, sh),
    λ p ne. refl,
    λ p sh. ground (arith, sh),
  )

  compose-managed :
      (bytes : List ℕ)
      → leb (length bytes) inline_max ≡ false
      → Composed before s os topic_id payload old (some bytes)
  unfolding compose
  compose-managed bytes e =
      let (t, made, l) = make_payload_lem s payload (length os) bytes observed (omega arith) in
      rw (e, made)
        (
          _,
          t,
          refl,
          record {
            topic = refl;
            observers = refl;
            size = refl;
            content = inr (record {
              payload = payload;
              value = created s payload bytes;
              not_inline = refl;
              points = refl;
              live = l.at_p;
              bytes = refl;
              observed = observed;
              few = omega arith;
              new = new;
            });
          },
          λ p sh. ground (arith, sh, free),
          λ p ne. l.elsewhere p (λ same. ne (ap some (sym same))),
          λ p sh. ground (arith, sh),
        )

  -- What `post` writes for some bytes, or for no bytes at a null pointer, carries them to the
  -- observers; the store changes at most at the address of a new payload.
  pub compose-Carries : (bytes : Option (List ℕ)) → Composed before s os topic_id payload old bytes
  compose-Carries none = compose-inline none refl
  compose-Carries (some bytes) = elim (Bool-cases (leb (length bytes) inline_max)) [
    | inl e ↦ compose-inline (some bytes) e
    | inr e ↦ compose-managed bytes e
  ]
