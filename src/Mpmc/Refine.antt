-- ===== src/Mpmc/Refine.antt =====
-- A ring behaves as the bounded FIFO of the items that it holds, on every run of calls.
use native.Mathlib.Nat.{add-zero}
use message_center_cpp.Common.{
  ℕ, zero, suc, ◌+◌, ◌-◌, ◌%◌, ◌<◌, ◌≡◌, refl, ap, ap₂, ◌∙◌, sym, List, [], ◌∷◌, ◌++◌, Bool, true,
  false, Option, some, ◌>>=◌, length, lt→ltb, le→not_ltb, arith, dec_lt,
}
use message_center_cpp.Mpmc.{
  word, Ring, index, Verdict, verdict, diff, fill, vacate, push_loop, pop_loop, try_push, try_pop,
}
use message_center_cpp.Mpmc.Arith.{
  IsCapacity, capacity_bounds, slot_wraps, verdict_level, verdict_behind,
}
use message_center_cpp.Mpmc.Invariant.{
  Holds, tail_slot, head_slot, fill-Holds, vacate-Holds, head_item,
}
use message_center_cpp.Mpmc.Fifo
use message_center_cpp.Mpmc.Fifo.{Op, put, get}

module _ {A : Type 0} (cap : ℕ) where
  abbrev push_verdict : Ring A → Verdict
  push_verdict r = verdict (diff (r.slots (index cap r.tail)).seq r.tail)

  abbrev pop_verdict : Ring A → Verdict
  pop_verdict r = verdict (diff (r.slots (index cap r.head)).seq ((r.head + 1) % word))

  -- With nobody else about, the loop ends in the round whose compare-exchange does not fail.
  push_claims :
      (n : ℕ) (r : Ring A) (x : A)
      → push_verdict r ≡ Verdict.claim
      → push_loop cap n r x r.tail ≡ some (true, fill cap r r.tail x)
  unfolding push_loop
  push_claims zero r x e = ground arith
  push_claims (suc n) r x e = ground (arith, push_claims n r x e)

  push_gives_up :
      (n : ℕ) (r : Ring A) (x : A)
      → push_verdict r ≡ Verdict.give_up
      → push_loop cap n r x r.tail ≡ some (false, r)
  unfolding push_loop
  push_gives_up zero r x e = ground arith
  push_gives_up (suc n) r x e = ground arith

  pop_claims :
      (n : ℕ) (r : Ring A) (out : A)
      → pop_verdict r ≡ Verdict.claim
      → pop_loop cap n r out r.head
        ≡ some (true, (r.slots (index cap r.head)).item, vacate cap r r.head)
  unfolding pop_loop
  pop_claims zero r out e = ground arith
  pop_claims (suc n) r out e = ground (arith, pop_claims n r out e)

  pop_gives_up :
      (n : ℕ) (r : Ring A) (out : A)
      → pop_verdict r ≡ Verdict.give_up
      → pop_loop cap n r out r.head ≡ some (false, out, r)
  unfolding pop_loop
  pop_gives_up zero r out e = ground arith
  pop_gives_up (suc n) r out e = ground arith

judge :
    {s s' t t' : ℕ} {w : Verdict}
    → s ≡ s'
    → t ≡ t'
    → verdict (diff s' t') ≡ w
    → verdict (diff s t) ≡ w
judge p q h = ap₂ (λ s t. verdict (diff s t)) p q ∙ h

module _ {A : Type 0} {cap : ℕ} (c : IsCapacity cap) {r : Ring A} {h : ℕ} where
  head_seq :
      {xs : List A}
      → Holds cap r h xs
      → (r.slots (index cap r.head)).seq ≡ (r.slots ((h + 0) % cap)).seq
  head_seq v =
      ap (λ (t : ℕ). (r.slots t).seq) (head_slot c v ∙ ap (λ (t : ℕ). t % cap) (sym (add-zero h)))

  tail_room :
      {xs : List A} → Holds cap r h xs → length xs < cap → push_verdict cap r ≡ Verdict.claim
  tail_room {xs} v room =
      judge
        (ap (λ (t : ℕ). (r.slots t).seq) (tail_slot c v) ∙ v.vacant (length xs) (omega arith) room)
        v.tail_at (verdict_level (h + length xs))

  tail_full :
      {xs : List A} → Holds cap r h xs → length xs ≡ cap → push_verdict cap r ≡ Verdict.give_up
  tail_full {xs} v full =
      judge
        (ap (λ (t : ℕ). (r.slots t).seq) (tail_slot c v ∙ around)
          ∙ v.full 0 (omega (arith, capacity_bounds c))
          ∙ omega arith)
        (v.tail_at ∙ omega (arith, capacity_bounds c))
        (verdict_behind (h + 1) (cap - 1) (omega (arith, capacity_bounds c))
          (omega (arith, capacity_bounds c)))
    where
      around : (h + length xs) % cap ≡ (h + 0) % cap
      around =
          ap (λ (t : ℕ). (h + t) % cap) full
          ∙ slot_wraps cap h (omega (arith, capacity_bounds c))
          ∙ ap (λ (t : ℕ). t % cap) (sym (add-zero h))

  head_ready : {x : A} {xs : List A} → Holds cap r h (x ∷ xs) → pop_verdict cap r ≡ Verdict.claim
  head_ready v =
      judge (head_seq v ∙ v.full 0 (omega arith) ∙ omega arith) (omega (arith, v.head_at))
        (verdict_level (h + 1))

  head_waits : Holds cap r h [] → pop_verdict cap r ≡ Verdict.give_up
  head_waits v =
      judge (head_seq v ∙ v.vacant 0 (omega arith) (omega (arith, capacity_bounds c)) ∙ omega arith)
        (omega (arith, v.head_at)) (verdict_behind h 1 (omega arith) (omega arith))

-- `Ring r` holds `xs`, whatever went out before.
abbrev pub Contents : {A : Type 0} → ℕ → Ring A → List A → Type 0
Contents cap r xs = (h : ℕ) × Holds cap r h xs

module _ {A : Type 0} {cap : ℕ} (c : IsCapacity cap) (n : ℕ) where
  pub try_push-room :
      {r : Ring A} {xs : List A} (x : A)
      → Contents cap r xs
      → length xs < cap
      → (r' : Ring A) × (try_push cap n r x ≡ some (true, r')) × Contents cap r' (xs ++ x ∷ [])
  unfolding try_push
  try_push-room {r} {xs} x (h, v) room =
      (fill cap r r.tail x, push_claims cap n r x (tail_room c v room), (h, fill-Holds c v x room))

  pub try_push-full :
      {r : Ring A} {xs : List A} (x : A)
      → Contents cap r xs
      → length xs ≡ cap
      → try_push cap n r x ≡ some (false, r)
  unfolding try_push
  try_push-full {r} {xs} x (h, v) full = push_gives_up cap n r x (tail_full c v full)

  pub try_pop-cons :
      {r : Ring A} {x : A} {xs : List A} (out : A)
      → Contents cap r (x ∷ xs)
      → (r' : Ring A) × (try_pop cap n r out ≡ some (true, x, r')) × Contents cap r' xs
  unfolding try_pop
  try_pop-cons {r} {x} {xs} out (h, v) = (
    vacate cap r r.head,
    pop_claims cap n r out (head_ready c v)
        ∙ ap (λ y. some (true, y, vacate cap r r.head)) (head_item c x v x),
    (suc h, vacate-Holds c x v),
  )

  pub try_pop-nil :
      {r : Ring A} (out : A) → Contents cap r [] → try_pop cap n r out ≡ some (false, out, r)
  unfolding try_pop
  try_pop-nil {r} out (h, v) = pop_gives_up cap n r out (head_waits c v)

  -- `try_push` ends, answers as the push of the bounded FIFO of the contents, and leaves its
  -- result, however often the weak compare-exchange fails for no reason.
  pub try_push_refines :
      {r : Ring A} {xs : List A} (x : A)
      → Contents cap r xs
      → let (b, ys) = Fifo.push cap xs x in
        (r' : Ring A) × (try_push cap n r x ≡ some (b, r')) × Contents cap r' ys
  unfolding Fifo.push
  try_push_refines {r} {xs} x v = elim (dec_lt (length xs) cap) [
    | yes room ↦ rw (lt→ltb _ _ room) (try_push-room x v room)
    | no full ↦
        rw (le→not_ltb (length xs) cap (omega arith))
          (r, try_push-full x v (omega (arith, v.1.fits)), v)
  ]

  -- `try_pop` ends, answers as the pop of the FIFO of the contents, and leaves its result, however
  -- often the weak compare-exchange fails for no reason.
  pub try_pop_refines :
      {r : Ring A} (xs : List A) (out : A)
      → Contents cap r xs
      → let (b, y, ys) = Fifo.pop xs out in
        (r' : Ring A) × (try_pop cap n r out ≡ some (b, y, r')) × Contents cap r' ys
  unfolding Fifo.pop
  try_pop_refines [] out v = (_, try_pop-nil out v, v)
  try_pop_refines (x ∷ xs) out v = try_pop-cons out v

-- The calls of a client, each with the number of its spurious failures.
module _ {A : Type 0} (cap : ℕ) where
  unfoldable pub run : Ring A → A → List (ℕ × Op A) → Option (List (Bool × A))
  run r out [] = some []
  run r out ((n, put x) ∷ ops) = do
    (b, r') ← try_push cap n r x
    replies ← run r' out ops
    some ((b, out) ∷ replies)
  run r out ((n, get) ∷ ops) = do
    (b, y, r') ← try_pop cap n r out
    replies ← run r' y ops
    some ((b, y) ∷ replies)

-- No sequence of calls tells the ring from the bounded FIFO of its contents, and every call ends.
pub run_refines :
    {A : Type 0} {cap : ℕ} (c : IsCapacity cap) (ops : List (ℕ × Op A)) {r : Ring A} (xs : List A)
    (out : A)
    → Contents cap r xs
    → run cap r out ops ≡ some (Fifo.run cap xs out ops)
unfolding run Fifo.run
run_refines c [] xs out v = refl
run_refines c ((n, put x) ∷ ops) {r} xs out v =
    let (r', e, v') = try_push_refines c n x v in
    rw (e, run_refines c ops (Fifo.push _ xs x).1 out v') refl
run_refines c ((n, get) ∷ ops) {r} xs out v =
    let (r', e, v') = try_pop_refines c n xs out v in
    rw (e, run_refines c ops (Fifo.pop xs out).2 (Fifo.pop xs out).1 v') refl
