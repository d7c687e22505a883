-- ===== src/Mpmc/Invariant.antt =====
-- What the slots and counters of a ring are between two calls, and that every call keeps it.
use native.Mathlib.Nat.{mod-eq_of_lt, add-zero}
use message_center_cpp.Common.{
  ℕ, suc, ◌+◌, ◌%◌, ◌≤◌, ◌<◌, ◌≡◌, refl, ap, ◌∙◌, sym, ◌≢◌, List, [], ◌∷◌, ◌++◌, length,
  length-append, get_or, get_or-append_left, get_or-append_last, ℕ_discrete, dec_lt, arith,
}
use message_center_cpp.Mpmc.{word, Ring, index, update_self, update_ne, init, fill, vacate}
use message_center_cpp.Mpmc.Arith.{IsCapacity, capacity_bounds, index-word, slot-ne, slot_wraps}

-- `r` holds `xs`, oldest first, after `h` items have gone out since the ring was made. The
-- counters are the positions modulo the word; a slot that holds position `p` has the number
-- `p + 1`, and one that waits for position `p` has `p`.
pub record Holds {A : Type 0} (cap : ℕ) (r : Ring A) (h : ℕ) (xs : List A) : Type 0 where
  pub fits : length xs ≤ cap
  pub head_at : r.head ≡ h % word
  pub tail_at : r.tail ≡ (h + length xs) % word
  pub full : (j : ℕ) → j < length xs → (r.slots ((h + j) % cap)).seq ≡ (h + j + 1) % word
  pub stored : (j : ℕ) (d : A) → j < length xs → (r.slots ((h + j) % cap)).item ≡ get_or xs j d
  pub vacant : (j : ℕ) → length xs ≤ j → j < cap → (r.slots ((h + j) % cap)).seq ≡ (h + j) % word

module _ {A : Type 0} {cap : ℕ} (c : IsCapacity cap) where
  pub init-Holds : (garbage : A) → Holds cap (init garbage) 0 []
  unfolding init
  init-Holds garbage = record {
    fits = omega arith;
    head_at = refl;
    tail_at = refl;
    full = λ j p. absurd (omega arith);
    stored = λ j d p. absurd (omega arith);
    vacant = λ j p q. start j q;
  }
    where
      start : (j : ℕ) → j < cap → (0 + j) % cap ≡ (0 + j) % word
      start j q = omega (arith, mod-eq_of_lt {n = 0 + j} {m = cap} (omega arith), capacity_bounds c)

  module _ {r : Ring A} {h : ℕ} {xs : List A} (v : Holds cap r h xs) where
    pub tail_slot : index cap r.tail ≡ (h + length xs) % cap
    tail_slot = ap (index cap) v.tail_at ∙ index-word c (h + length xs)

    pub head_slot : index cap r.head ≡ h % cap
    head_slot = ap (index cap) v.head_at ∙ index-word c h

    module _ (x : A) (room : length xs < cap) where
      at_tail :
          (fill cap r r.tail x).slots ((h + length xs) % cap)
          ≡ record { seq = (r.tail + 1) % word; item = x }
      unfolding fill
      at_tail = rw tail_slot (update_self r.slots ((h + length xs) % cap) _)

      off_tail :
          (j : ℕ)
          → j ≢ length xs
          → j < cap
          → (fill cap r r.tail x).slots ((h + j) % cap) ≡ r.slots ((h + j) % cap)
      unfolding fill
      off_tail j ne lt = rw tail_slot (
          update_ne r.slots ((h + length xs) % cap) ((h + j) % cap) _
            (slot-ne cap h (length xs) j room lt (λ e. ne (sym e))))

      grown : length (xs ++ x ∷ []) ≡ length xs + 1
      grown = omega (arith, length-append {0} xs (x ∷ []))

      filled_seq :
          (j : ℕ)
          → j < length xs + 1
          → ((fill cap r r.tail x).slots ((h + j) % cap)).seq ≡ (h + j + 1) % word
      filled_seq j lt = elim (ℕ_discrete j (length xs)) [
        | yes e ↦ rw e (ap (λ s. s.seq) at_tail ∙ omega (arith, v.tail_at))
        | no ne ↦ ap (λ s. s.seq) (off_tail j ne (omega arith)) ∙ v.full j (omega arith)
      ]

      filled_item :
          (j : ℕ) (d : A)
          → j < length xs + 1
          → ((fill cap r r.tail x).slots ((h + j) % cap)).item ≡ get_or (xs ++ x ∷ []) j d
      filled_item j d lt = elim (ℕ_discrete j (length xs)) [
        | yes e ↦ rw e (ap (λ s. s.item) at_tail ∙ sym (get_or-append_last xs x d))
        | no ne ↦
            ap (λ s. s.item) (off_tail j ne (omega arith))
            ∙ v.stored j d (omega arith)
            ∙ sym (get_or-append_left xs (x ∷ []) j d (omega arith))
      ]

      -- The two stores of `try_push` append the item.
      pub fill-Holds : Holds cap (fill cap r r.tail x) h (xs ++ x ∷ [])
      unfolding fill
      fill-Holds = record {
        fits = omega (arith, grown);
        head_at = v.head_at;
        tail_at = omega (arith, grown, v.tail_at);
        full = λ j lt. filled_seq j (omega (arith, grown));
        stored = λ j d lt. filled_item j d (omega (arith, grown));
        vacant = λ j le lt.
            ap (λ s. s.seq) (off_tail j (omega (arith, grown)) lt)
            ∙ v.vacant j (omega (arith, grown)) lt;
      }

  module _ {r : Ring A} {h : ℕ} (x : A) {xs : List A} (v : Holds cap r h (x ∷ xs)) where
    at_head :
        (vacate cap r r.head).slots (h % cap)
        ≡ record { seq = (r.head + cap) % word; item = (r.slots (h % cap)).item }
    unfolding vacate
    at_head = rw (head_slot v) (update_self r.slots (h % cap) _)

    reindex : (j : ℕ) → suc h + j ≡ h + suc j
    reindex j = omega arith

    off_head :
        (j : ℕ)
        → suc j < cap
        → (vacate cap r r.head).slots ((suc h + j) % cap) ≡ r.slots ((h + suc j) % cap)
    unfolding vacate
    off_head j lt =
        rw (head_slot v, reindex j) (update_ne r.slots (h % cap) ((h + suc j) % cap) _ apart)
      where
        apart : h % cap ≢ (h + suc j) % cap
        apart = rw (add-zero h) at (slot-ne cap h 0 (suc j) (omega arith) lt (omega arith))

    vacated_seq :
        (j : ℕ)
        → length xs ≤ j
        → j < cap
        → ((vacate cap r r.head).slots ((suc h + j) % cap)).seq ≡ (suc h + j) % word
    vacated_seq j le lt = elim (dec_lt (suc j) cap) [
      | yes inside ↦
          ap (λ s. s.seq) (off_head j inside)
          ∙ v.vacant (suc j) (omega arith) inside
          ∙ ap (λ (t : ℕ). t % word) (sym (reindex j))
      | no last ↦
          ap (λ (t : ℕ). ((vacate cap r r.head).slots t).seq) (around (omega arith))
          ∙ ap (λ s. s.seq) at_head
          ∙ omega (arith, v.head_at)
    ]
      where
        around : suc j ≡ cap → (suc h + j) % cap ≡ h % cap
        around e = ap (λ (t : ℕ). t % cap) (omega arith) ∙ slot_wraps cap h (omega arith)

    -- The store of `try_pop` drops the oldest item.
    pub vacate-Holds : Holds cap (vacate cap r r.head) (suc h) xs
    unfolding vacate
    vacate-Holds = record {
      fits = omega (arith, v.fits);
      head_at = omega (arith, v.head_at);
      tail_at = omega (arith, v.tail_at);
      full = λ j lt.
          ap (λ s. s.seq) (off_head j (omega (arith, v.fits)))
          ∙ v.full (suc j) (omega arith)
          ∙ ap (λ (t : ℕ). (t + 1) % word) (sym (reindex j));
      stored = λ j d lt.
          ap (λ s. s.item) (off_head j (omega (arith, v.fits))) ∙ v.stored (suc j) d (omega arith);
      vacant = vacated_seq;
    }

    pub head_item : (d : A) → (r.slots (index cap r.head)).item ≡ x
    head_item d =
        ap (λ (t : ℕ). (r.slots t).item) (head_slot v ∙ ap (λ (t : ℕ). t % cap) (sym (add-zero h)))
        ∙ v.stored 0 d (omega arith)
