-- ===== src/Mpmc/Threads/Stores.antt =====
-- The stores to a slot of a ring.
use native.Mathlib.Nat.{mod-eq_of_lt}
use message_center_cpp.Common.{
  ℕ, ◌+◌, ◌^◌, ◌≤◌, ◌<◌, ◌≡◌, ◌≢◌, ◌⊎◌, inl, inr, refl, sym, ap, ◌∙◌, some, arith, subst,
}
use message_center_cpp.Mpmc.{word, Slot, index, update_self, update_ne}
use message_center_cpp.Mpmc.Arith.{IsCapacity, capacity_bounds}
use message_center_cpp.Mpmc.Threads.{
  Pc, idle, push_load, push_check, push_claim, push_write, push_publish, pop_load, pop_check,
  pop_claim, pop_read, pop_release, System, slot_of, write_item, publish,
}
use message_center_cpp.Mpmc.Threads.Invariant.{
  Inv, Fits, Writing, seq_of, writes, reads, update_cases, next_slot, same_slot,
}
use message_center_cpp.Mpmc.Threads.Moves.{claims_kept, readers_kept, Fits-at}
use message_center_cpp.Mpmc.Threads.Claims.{none_ne_some}

module _ {A : Type 0} {cap : ℕ} {s : System A} (v : Inv cap s) (i : ℕ) (c : IsCapacity cap) where
  -- one slot has one number
  pub shared : (p q : ℕ) → index cap p ≡ index cap q → seq_of cap s p ≡ seq_of cap s q
  shared p q e = ap (λ (t : ℕ). (s.slots t).seq) e

  -- two positions of one slot whose numbers are those of neighbours
  pub neighbours : {P : Type 0} (p q : ℕ) → index cap p ≡ index cap q → p ≡ q + 1 → P
  neighbours p q same e = absurd (next_slot c q (sym same ∙ ap (index cap) e))

  module _ (x : A) (p : ℕ) (e : s.pc i ≡ push_write x p) where
    mine : Writing cap s x p
    mine = Fits-at v i e

    written : System A
    written = write_item cap s i x p

    written_seq : (q : ℕ) → seq_of cap written q ≡ seq_of cap s q
    unfolding written write_item
    written_seq q =
        update_cases (λ (t : Slot A). t.seq ≡ seq_of cap s q) s.slots (index cap p) _ (index cap q)
          (λ same. shared p q same) (λ ne. refl)

    written_item :
        (q : ℕ) (y : A)
        → (index cap p ≢ index cap q)
        → (slot_of cap s q).item ≡ y
        → (slot_of cap written q).item ≡ y
    unfolding written write_item
    written_item q y ne a =
        ap (λ (t : Slot A). t.item) (update_ne s.slots (index cap p) (index cap q) _ ne) ∙ a

    written-Fits : (j : ℕ) → i ≢ j → (r : Pc A) → s.pc j ≡ r → Fits cap s r → Fits cap written r
    unfolding written write_item
    written-Fits j ne idle a f = tt
    written-Fits j ne (push_load y) a f = tt
    written-Fits j ne (push_check y t) a f = f
    written-Fits j ne (push_claim y t) a f = (f.0, λ b. written_seq t ∙ f.1 b)
    written-Fits j ne (push_write y q) a f = (f.0, f.1, written_seq q ∙ f.2, f.3)
    written-Fits j ne (push_publish y q) a f = (
      (f.0.0, f.0.1, written_seq q ∙ f.0.2, f.0.3),
      written_item q y
          (λ same. ne (
            v.one_writer i j p (ap writes e)
              (ap writes a ∙ ap some (sym f.0.2 ∙ sym (shared p q same) ∙ mine.2))))
          f.1,
    )
    written-Fits j ne pop_load a f = tt
    written-Fits j ne (pop_check h) a f = f
    written-Fits j ne (pop_claim h) a f = (f.0, λ b. (written_seq h ∙ (f.1 b).0, (f.1 b).1))
    written-Fits j ne (pop_read q) a f = (f.0, written_seq q ∙ f.1, f.2)
    written-Fits j ne (pop_release q y) a f = ((f.0.0, written_seq q ∙ f.0.1, f.0.2), f.1)

    pub write_item-Inv : Inv cap (write_item cap s i x p)
    unfolding written write_item
    write_item-Inv = record {
      tail_at = v.tail_at;
      head_at = v.head_at;
      ordered = v.ordered;
      bounded = v.bounded;
      small = λ q. omega (arith, written_seq q, v.small q);
      published = λ q a.
          let now = sym (written_seq q) ∙ a in
          (
            (v.published q now).0,
            written_item q (s.sent q)
                (λ same. neighbours p q same (sym mine.2 ∙ shared p q same ∙ now))
                (v.published q now).1,
          );
      waiting = λ q a b. elim (v.waiting q a b) [
        | inl d ↦ inl (written_seq q ∙ d)
        | inr d ↦ inr (written_seq q ∙ d)
      ];
      ahead = v.ahead;
      behind = λ q a. elim (v.behind q a) [
        | inl done ↦ inl done
        | inr held ↦ inr (readers_kept v i (push_publish x p) q (λ b. sym (ap reads e) ∙ b) held)
      ];
      threads = λ j.
          update_cases (Fits cap written) s.pc i (push_publish x p) j
            (λ same. (
              (mine.0, mine.1, written_seq p ∙ mine.2, mine.3),
              ap (λ (t : Slot A). t.item) (update_self s.slots (index cap p) _),
            ))
            (λ ne. written-Fits j ne (s.pc j) refl (v.threads j));
      one_writer = claims_kept v i (push_publish x p) writes (λ q a. ap writes e ∙ a) v.one_writer;
      one_reader = claims_kept v i (push_publish x p) reads (λ q a. cc) v.one_reader;
    }

  module _ (x : A) (p : ℕ) (e : s.pc i ≡ push_publish x p) (few : s.pushes < 2 ^ 62) where
    held_for : Writing cap s x p × ((slot_of cap s p).item ≡ x)
    held_for = Fits-at v i e

    published_at : System A
    published_at = publish cap s i p

    -- the number of every slot afterwards
    seq_cases :
        (P : ℕ → Type 0) (q : ℕ)
        → (index cap p ≡ index cap q → seq_of cap s q ≡ p → P (p + 1))
        → (index cap p ≢ index cap q → P (seq_of cap s q))
        → P (seq_of cap published_at q)
    unfolding published_at publish
    seq_cases P q here away =
        update_cases (λ (t : Slot A). P t.seq) s.slots (index cap p) _ (index cap q)
          (λ same.
            subst P (sym (mod-eq_of_lt {n = p + 1} {m = word} (omega (arith, held_for.0.0))))
              (here same (sym (shared p q same) ∙ held_for.0.2)))
          away

    item_kept : (q : ℕ) → (slot_of cap published_at q).item ≡ (slot_of cap s q).item
    unfolding published_at publish
    item_kept q =
        update_cases (λ (t : Slot A). t.item ≡ (slot_of cap s q).item) s.slots (index cap p) _
          (index cap q) (λ same. ap (λ (t : ℕ). (s.slots t).item) same) (λ ne. refl)

    published-Fits :
        (j : ℕ) → i ≢ j → (r : Pc A) → s.pc j ≡ r → Fits cap s r → Fits cap published_at r
    unfolding published_at publish
    published-Fits j ne idle a f = tt
    published-Fits j ne (push_load y) a f = tt
    published-Fits j ne (push_check y t) a f = f
    published-Fits j ne (push_claim y t) a f = (
      f.0,
      λ b.
          seq_cases (λ w. w ≡ t) t (λ same now. absurd (omega (arith, held_for.0.0, f.1 b)))
            (λ away. f.1 b),
    )
    published-Fits j ne (push_write y q) a f = (
      f.0,
      f.1,
      seq_cases (λ w. w ≡ q) q
          (λ same now.
            absurd (ne (v.one_writer i j p (ap writes e) (ap writes a ∙ ap some (sym f.2 ∙ now)))))
          (λ away. f.2),
      f.3,
    )
    published-Fits j ne (push_publish y q) a f = (
      (
        f.0.0,
        f.0.1,
        seq_cases (λ w. w ≡ q) q
            (λ same now.
              absurd
                (ne (v.one_writer i j p (ap writes e) (ap writes a ∙ ap some (sym f.0.2 ∙ now)))))
            (λ away. f.0.2),
        f.0.3,
      ),
      item_kept q ∙ f.1,
    )
    published-Fits j ne pop_load a f = tt
    published-Fits j ne (pop_check h) a f = f
    published-Fits j ne (pop_claim h) a f = (
      f.0,
      λ b. (
        seq_cases (λ w. w ≡ h + 1) h (λ same now. neighbours p h same (sym now ∙ (f.1 b).0))
            (λ away. (f.1 b).0),
        (f.1 b).1,
      ),
    )
    published-Fits j ne (pop_read q) a f = (
      f.0,
      seq_cases (λ w. w ≡ q + 1) q (λ same now. neighbours p q same (sym now ∙ f.1)) (λ away. f.1),
      f.2,
    )
    published-Fits j ne (pop_release q y) a f = (
      (
        f.0.0,
        seq_cases (λ w. w ≡ q + 1) q (λ same now. neighbours p q same (sym now ∙ f.0.1))
            (λ away. f.0.1),
        f.0.2,
      ),
      f.1,
    )

    pub publish-Inv : Inv cap (publish cap s i p)
    unfolding published_at publish
    publish-Inv = record {
      tail_at = v.tail_at;
      head_at = v.head_at;
      ordered = v.ordered;
      bounded = v.bounded;
      small = λ q.
          seq_cases (λ w. w ≤ s.pushes + cap) q
            (λ same now. omega (arith, held_for.0.0, capacity_bounds c)) (λ away. v.small q);
      published = λ q.
          seq_cases
            (λ w. w ≡ q + 1 → (q < s.pushes) × ((slot_of cap published_at q).item ≡ s.sent q)) q
            (λ same now a.
              let it : p ≡ q = omega arith in
              (
                omega (arith, held_for.0.0),
                subst (λ (t : ℕ). (slot_of cap published_at t).item ≡ s.sent t) it
                    (item_kept p ∙ held_for.1 ∙ sym held_for.0.3),
              ))
            (λ away a. ((v.published q a).0, item_kept q ∙ (v.published q a).1));
      waiting = λ q a b.
          seq_cases (λ w. (w ≡ q) ⊎ (w ≡ q + 1)) q
            (λ same now. inr (
              ap (λ (t : ℕ). t + 1)
                (same_slot c p q same (omega (arith, held_for.0, v.bounded))
                  (omega (arith, held_for.0, v.bounded)))))
            (λ away. v.waiting q a b);
      ahead = v.ahead;
      behind = λ q a. elim (v.behind q a) [
        | inl done ↦ inl done
        | inr held ↦
            inr (readers_kept v i idle q (λ b. absurd (none_ne_some (sym (ap reads e) ∙ b))) held)
      ];
      threads = λ j.
          update_cases (Fits cap published_at) s.pc i idle j (λ same. tt)
            (λ ne. published-Fits j ne (s.pc j) refl (v.threads j));
      one_writer = claims_kept v i idle writes (λ q a. cc) v.one_writer;
      one_reader = claims_kept v i idle reads (λ q a. cc) v.one_reader;
    }
