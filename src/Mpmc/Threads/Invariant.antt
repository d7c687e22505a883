-- ===== src/Mpmc/Threads/Invariant.antt =====
-- What holds between two steps of the threads on a ring, as long as fewer than 2 ^ 62 items have
-- been pushed, so that the counters have not come round.
use native.Mathlib.Nat.{mod-le}
use message_center_cpp.Common.{
  ℕ, ◌+◌, ◌-◌, ◌%◌, ◌≤◌, ◌<◌, ◌≡◌, ◌≢◌, ◌⊎◌, refl, sym, ap, ◌∙◌, Option, none, some, [], ◌∷◌, arith,
  ==_iff, ne→not_==, ℕ_discrete, dec_lt,
}
use message_center_cpp.Mpmc.{word, index, Verdict, verdict, diff, update}
use message_center_cpp.Mpmc.Arith.{IsCapacity, capacity_bounds, index_lem, index-lt, slot-ne}
use message_center_cpp.Mpmc.Threads.{
  Pc, push_check, push_claim, push_write, push_publish, pop_check, pop_claim, pop_read, pop_release,
  System, slot_of, start,
}

-- The position that a thread has claimed and not yet passed on, at either end.
abbrev pub writes : {A : Type 0} → Pc A → Option ℕ
writes (push_write x p) = some p
writes (push_publish x p) = some p
writes _ = none

abbrev pub reads : {A : Type 0} → Pc A → Option ℕ
reads (pop_read p) = some p
reads (pop_release p x) = some p
reads _ = none

module _ {A : Type 0} (cap : ℕ) (s : System A) where
  abbrev pub seq_of : ℕ → ℕ
  seq_of p = (slot_of cap s p).seq

  -- a position that a producer has claimed and not yet published
  abbrev pub Writing : A → ℕ → Type 0
  Writing x p = (p < s.pushes) × (s.pops ≤ p) × (seq_of p ≡ p) × (s.sent p ≡ x)

  -- a position that a consumer has claimed and not yet released
  abbrev pub Reading : ℕ → Type 0
  Reading p = (p < s.pops) × (seq_of p ≡ p + 1) × (s.delivered p ≡ [])

  -- What a thread knows where it stands.
  abbrev pub Fits : Pc A → Type 0
  Fits (push_check x t) = t ≤ s.pushes
  Fits (push_claim x t) = (t ≤ s.pushes) × (t ≡ s.pushes → seq_of t ≡ t)
  Fits (push_write x p) = Writing x p
  Fits (push_publish x p) = Writing x p × ((slot_of cap s p).item ≡ x)
  Fits (pop_check h) = h ≤ s.pops
  Fits (pop_claim h) = (h ≤ s.pops) × (h ≡ s.pops → (seq_of h ≡ h + 1) × (h < s.pushes))
  Fits (pop_read p) = Reading p
  Fits (pop_release p x) = Reading p × (x ≡ s.sent p)
  Fits _ = Unit

  pub record Inv : Type 0 where
    pub tail_at : s.tail ≡ s.pushes
    pub head_at : s.head ≡ s.pops
    pub ordered : s.pops ≤ s.pushes
    pub bounded : s.pushes ≤ s.pops + cap
    pub small : (p : ℕ) → seq_of p ≤ s.pushes + cap
    pub published :
        (p : ℕ) → seq_of p ≡ p + 1 → (p < s.pushes) × ((slot_of cap s p).item ≡ s.sent p)
    pub waiting : (p : ℕ) → s.pops ≤ p → p < s.pushes → (seq_of p ≡ p) ⊎ (seq_of p ≡ p + 1)
    pub ahead : (p : ℕ) → s.pops ≤ p → s.delivered p ≡ []
    pub behind :
        (p : ℕ)
        → p < s.pops
        → (s.delivered p ≡ s.sent p ∷ []) ⊎ ((i : ℕ) × (reads (s.pc i) ≡ some p))
    pub threads : (i : ℕ) → Fits (s.pc i)
    pub one_writer : (i j p : ℕ) → writes (s.pc i) ≡ some p → writes (s.pc j) ≡ some p → i ≡ j
    pub one_reader : (i j p : ℕ) → reads (s.pc i) ≡ some p → reads (s.pc j) ≡ some p → i ≡ j

module _ {A : Type 0} (P : A → Type 0) (f : ℕ → A) (i : ℕ) (v : A) (j : ℕ) where
  pub update_cases : (i ≡ j → P v) → (i ≢ j → P (f j)) → P (update f i v j)
  update_cases h k = elim (ℕ_discrete i j) [
    | yes e ↦ rw ((==_iff i j).1 e) (h e)
    | no ne ↦ rw (ne→not_== i j ne) (k ne)
  ]

module _ {cap : ℕ} (c : IsCapacity cap) where
  -- Positions next to each other have different slots, and so have two of one round.
  slot_distance : (p d : ℕ) → 0 < d → d < cap → index cap p ≢ index cap (p + d)
  slot_distance p d some_d less e =
      slot-ne cap p 0 d (omega arith) less (omega arith)
        (ap (λ (t : ℕ). t % cap) (omega arith) ∙ sym (index_lem c p) ∙ e ∙ index_lem c (p + d))

  pub next_slot : (p : ℕ) → index cap p ≢ index cap (p + 1)
  next_slot p = slot_distance p 1 (omega arith) (omega (arith, capacity_bounds c))

  pub same_slot : (p q : ℕ) → index cap p ≡ index cap q → p < q + cap → q < p + cap → p ≡ q
  same_slot p q e lt lt' = elim (dec_lt p q) [
    | yes below ↦
        absurd
          (slot_distance p (q - p) (omega arith) (omega arith) (e ∙ ap (index cap) (omega arith)))
    | no above ↦ elim (dec_lt q p) [
      | yes below ↦ absurd (
          slot_distance q (p - q) (omega arith) (omega arith)
            (sym e ∙ ap (index cap) (omega arith)))
      | no here ↦ omega arith
    ]
  ]

  pub start-Inv : {A : Type 0} (garbage : A) → Inv cap (start cap garbage)
  unfolding start
  start-Inv garbage = record {
    tail_at = refl;
    head_at = refl;
    ordered = omega arith;
    bounded = omega arith;
    small = λ p. omega (arith, index-lt c p);
    published = λ p e. absurd (omega (arith, e, index_lem c p, mod-le p cap));
    waiting = λ p h k. absurd (omega arith);
    ahead = λ p h. refl;
    behind = λ p h. absurd (omega arith);
    threads = λ i. tt;
    one_writer = λ i j p e f. cc;
    one_reader = λ i j p e f. cc;
  }

-- A number that the verdict is `claim` for is the position itself.
pub verdict-claim :
    (seq at : ℕ) → seq < word → at < word → verdict (diff seq at) ≡ Verdict.claim → seq ≡ at
unfolding verdict
verdict-claim seq at p q e = ground arith
