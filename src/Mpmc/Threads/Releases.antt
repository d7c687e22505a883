-- ===== src/Mpmc/Threads/Releases.antt =====
-- The store with which a consumer hands the slot of a ring back.
use native.Mathlib.Nat.{mod-eq_of_lt}
use message_center_cpp.Common.{
  ℕ, ◌+◌, ◌^◌, ◌≤◌, ◌<◌, ◌≡◌, ◌≢◌, ◌⊎◌, inl, inr, refl, sym, ap, ◌∙◌, some, List, [], ◌∷◌, ◌++◌,
  arith, ℕ_discrete, subst,
}
use message_center_cpp.Mpmc.{word, Slot, index, update_self, update_ne}
use message_center_cpp.Mpmc.Arith.{IsCapacity, capacity_bounds}
use message_center_cpp.Mpmc.Threads.{
  Pc, idle, push_load, push_check, push_claim, push_write, push_publish, pop_load, pop_check,
  pop_claim, pop_read, pop_release, System, slot_of, release,
}
use message_center_cpp.Mpmc.Threads.Invariant.{
  Inv, Fits, Reading, seq_of, writes, reads, update_cases, same_slot,
}
use message_center_cpp.Mpmc.Threads.Moves.{claims_kept, readers_kept, Fits-at}
use message_center_cpp.Mpmc.Threads.Stores.{shared, neighbours}

module _ {A : Type 0} {cap : ℕ} {s : System A} (v : Inv cap s) (i : ℕ) (c : IsCapacity cap) (p : ℕ)
    (x : A) (e : s.pc i ≡ pop_release p x) (few : s.pushes < 2 ^ 62) where
  mine : Reading cap s p × (x ≡ s.sent p)
  mine = Fits-at v i e

  released : System A
  released = release cap s i p x

  -- the number of every slot afterwards
  seq_cases :
      (P : ℕ → Type 0) (q : ℕ)
      → (index cap p ≡ index cap q → seq_of cap s q ≡ p + 1 → P (p + cap))
      → (index cap p ≢ index cap q → P (seq_of cap s q))
      → P (seq_of cap released q)
  unfolding released release
  seq_cases P q here away =
      update_cases (λ (t : Slot A). P t.seq) s.slots (index cap p) _ (index cap q)
        (λ same.
          subst P
            (sym (
              mod-eq_of_lt {n = p + cap} {m = word}
                (omega (arith, mine.0.0, v.ordered, capacity_bounds c))))
            (here same (sym (shared v i c p q same) ∙ mine.0.1)))
        away

  item_kept : (q : ℕ) → (slot_of cap released q).item ≡ (slot_of cap s q).item
  unfolding released release
  item_kept q =
      update_cases (λ (t : Slot A). t.item ≡ (slot_of cap s q).item) s.slots (index cap p) _
        (index cap q) (λ same. ap (λ (t : ℕ). (s.slots t).item) same) (λ ne. refl)

  -- no other thread has the position
  apart : (j q : ℕ) → i ≢ j → reads (s.pc j) ≡ some q → p ≢ q
  apart j q ne a same = ne (v.one_reader i j p (ap reads e) (a ∙ ap some (sym same)))

  log_kept : (q : ℕ) → p ≢ q → released.delivered q ≡ s.delivered q
  unfolding released release
  log_kept q ne = update_ne s.delivered p q _ ne

  Reading-kept :
      (j q : ℕ) → i ≢ j → reads (s.pc j) ≡ some q → Reading cap s q → Reading cap released q
  unfolding released release
  Reading-kept j q ne a f = (
    f.0,
    seq_cases (λ w. w ≡ q + 1) q (λ same now. absurd (apart j q ne a (omega (arith, now, f.1))))
        (λ away. f.1),
    log_kept q (apart j q ne a) ∙ f.2,
  )

  -- a slot that waits for its next position is not the one that is released
  seq_level : (q : ℕ) → seq_of cap s q ≡ q → seq_of cap released q ≡ q
  seq_level q a =
      seq_cases (λ w. w ≡ q) q (λ same now. neighbours v i c q p (sym same) (sym a ∙ now))
        (λ away. a)

  released-Fits : (j : ℕ) → i ≢ j → (r : Pc A) → s.pc j ≡ r → Fits cap s r → Fits cap released r
  unfolding released release
  released-Fits j ne idle a f = tt
  released-Fits j ne (push_load y) a f = tt
  released-Fits j ne (push_check y t) a f = f
  released-Fits j ne (push_claim y t) a f = (f.0, λ b. seq_level t (f.1 b))
  released-Fits j ne (push_write y q) a f = (f.0, f.1, seq_level q f.2, f.3)
  released-Fits j ne (push_publish y q) a f =
      ((f.0.0, f.0.1, seq_level q f.0.2, f.0.3), item_kept q ∙ f.1)
  released-Fits j ne pop_load a f = tt
  released-Fits j ne (pop_check h) a f = f
  released-Fits j ne (pop_claim h) a f = (
    f.0,
    λ b. (
      seq_cases (λ w. w ≡ h + 1) h (λ same now. absurd (omega (arith, now, f.1 b, mine.0.0)))
          (λ away. (f.1 b).0),
      (f.1 b).1,
    ),
  )
  released-Fits j ne (pop_read q) a f = Reading-kept j q ne (ap reads a) f
  released-Fits j ne (pop_release q y) a f = (Reading-kept j q ne (ap reads a) f.0, f.1)

  pub release-Inv : Inv cap (release cap s i p x)
  unfolding released release
  release-Inv = record {
    tail_at = v.tail_at;
    head_at = v.head_at;
    ordered = v.ordered;
    bounded = v.bounded;
    small = λ q.
        seq_cases (λ w. w ≤ s.pushes + cap) q (λ same now. omega (arith, mine.0.0, v.ordered))
          (λ away. v.small q);
    published = λ q.
        seq_cases (λ w. w ≡ q + 1 → (q < s.pushes) × ((slot_of cap released q).item ≡ s.sent q)) q
          (λ same now a. absurd (
            omega (
              arith,
              same_slot c p q same (omega (arith, capacity_bounds c))
                  (omega (arith, capacity_bounds c)),
              capacity_bounds c,
            )))
          (λ away a. ((v.published q a).0, item_kept q ∙ (v.published q a).1));
    waiting = λ q a b.
        seq_cases (λ w. (w ≡ q) ⊎ (w ≡ q + 1)) q
          (λ same now. elim (v.waiting q a b) [
            | inl d ↦ neighbours v i c q p (sym same) (sym d ∙ now)
            | inr d ↦ absurd (omega (arith, now, d, mine.0.0))
          ])
          (λ away. v.waiting q a b);
    ahead = λ q a. log_kept q (λ same. absurd (omega (arith, mine.0.0))) ∙ v.ahead q a;
    behind = λ q a. elim (ℕ_discrete p q) [
      | yes here ↦ inl (
          subst (λ (t : ℕ). released.delivered t ≡ s.sent t ∷ []) here
            (update_self s.delivered p _
              ∙ ap (λ (t : List A). t ++ x ∷ []) mine.0.2
              ∙ ap (λ (y : A). y ∷ []) mine.1))
      | no ne ↦ elim (v.behind q a) [
        | inl done ↦ inl (log_kept q ne ∙ done)
        | inr held ↦ inr (readers_kept v i idle q (λ b. absurd (ne (cc))) held)
      ]
    ];
    threads = λ j.
        update_cases (Fits cap released) s.pc i idle j (λ same. tt)
          (λ ne. released-Fits j ne (s.pc j) refl (v.threads j));
    one_writer = claims_kept v i idle writes (λ q a. cc) v.one_writer;
    one_reader = claims_kept v i idle reads (λ q a. cc) v.one_reader;
  }
