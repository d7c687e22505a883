-- ===== src/Mpmc/Threads/Claims.antt =====
-- The successful compare-exchanges on a ring.
use native.Mathlib.Nat.{mod-eq_of_lt}
use message_center_cpp.Common.{
  ℕ, ◌+◌, ◌%◌, ◌^◌, ◌≤◌, ◌<◌, ◌≡◌, ◌≢◌, ◌⊎◌, inl, inr, refl, sym, ap, ◌∙◌, Option, none, some,
  arith, ℕ_discrete, subst,
}
use message_center_cpp.Mpmc.{word, index, update, update_self}
use message_center_cpp.Mpmc.Arith.{IsCapacity, capacity_bounds, index_lem, slot_wraps}
use message_center_cpp.Mpmc.Threads.{
  Pc, idle, push_load, push_check, push_claim, push_write, push_publish, pop_load, pop_check,
  pop_claim, pop_read, pop_release, System, claim_tail, claim_head,
}
use message_center_cpp.Mpmc.Threads.Invariant.{Inv, Fits, seq_of, writes, reads, update_cases}
use message_center_cpp.Mpmc.Threads.Moves.{claims_kept, readers_kept, Fits-at}

pub none_ne_some : {n : ℕ} → none ≢ some n
none_ne_some e = cc

module _ {A : Type 0} {cap : ℕ} {s : System A} (v : Inv cap s) (i : ℕ) (c : IsCapacity cap) where
  owner :
      (f : Pc A → Option ℕ) (p : Pc A) {at : ℕ} (j q : ℕ)
      → f p ≡ some at
      → f (update s.pc i p j) ≡ some q
      → ((i ≡ j) × (q ≡ at)) ⊎ (f (s.pc j) ≡ some q)
  owner f p {at} j q new =
      update_cases (λ (r : Pc A). f r ≡ some q → ((i ≡ j) × (q ≡ at)) ⊎ (f (s.pc j) ≡ some q)) s.pc
        i p j (λ same a. inl (same, cc)) (λ ne a. inr a)

  -- Thread `i` gets a position that no other thread has.
  claims_new :
      (f : Pc A → Option ℕ) (p : Pc A) {at : ℕ}
      → f p ≡ some at
      → ((j q : ℕ) → f (s.pc j) ≡ some q → q ≢ at)
      → ((j k q : ℕ) → f (s.pc j) ≡ some q → f (s.pc k) ≡ some q → j ≡ k)
      → (j k q : ℕ) → f (update s.pc i p j) ≡ some q
      → f (update s.pc i p k) ≡ some q
      → j ≡ k
  claims_new f p new fresh one j k q a b = elim (owner f p j q new a) [
    | inl here ↦ elim (owner f p k q new b) [
      | inl there ↦ sym here.0 ∙ there.0
      | inr old ↦ absurd (fresh k q old here.1)
    ]
    | inr old ↦ elim (owner f p k q new b) [
      | inl there ↦ absurd (fresh j q old there.1)
      | inr older ↦ one j k q old older
    ]
  ]

  abbrev pub Written : ℕ → Type 0
  Written q = (q < s.pushes) × (s.pops ≤ q) × (seq_of cap s q ≡ q)

  pub Written-Fits : (p : Pc A) (q : ℕ) → Fits cap s p → writes p ≡ some q → Written q
  Written-Fits (push_write x p) q f e = ground arith
  Written-Fits (push_publish x p) q f e = ground arith
  Written-Fits idle q f e = cc
  Written-Fits (push_load _) q f e = cc
  Written-Fits (push_check _ _) q f e = cc
  Written-Fits (push_claim _ _) q f e = cc
  Written-Fits pop_load q f e = cc
  Written-Fits (pop_check _) q f e = cc
  Written-Fits (pop_claim _) q f e = cc
  Written-Fits (pop_read _) q f e = cc
  Written-Fits (pop_release _ _) q f e = cc

  pub reader_below : (p : Pc A) (q : ℕ) → Fits cap s p → reads p ≡ some q → q < s.pops
  reader_below (pop_read p) q f e = ground arith
  reader_below (pop_release p x) q f e = ground arith
  reader_below idle q f e = cc
  reader_below (push_load _) q f e = cc
  reader_below (push_check _ _) q f e = cc
  reader_below (push_claim _ _) q f e = cc
  reader_below (push_write _ _) q f e = cc
  reader_below (push_publish _ _) q f e = cc
  reader_below pop_load q f e = cc
  reader_below (pop_check _) q f e = cc
  reader_below (pop_claim _) q f e = cc

  module _ (x : A) (tail : ℕ) (e : s.pc i ≡ push_claim x tail) (top : s.tail ≡ tail)
      (few : s.pushes + 1 < 2 ^ 62) where
    at_top : tail ≡ s.pushes
    at_top = sym top ∙ v.tail_at

    vacant : seq_of cap s s.pushes ≡ s.pushes
    vacant = subst (λ (t : ℕ). seq_of cap s t ≡ t) at_top ((Fits-at v i e).1 at_top)

    has_room : s.pushes < s.pops + cap
    has_room = elim (ℕ_discrete s.pushes (s.pops + cap)) [
      | yes full ↦
          let around : index cap s.pushes ≡ index cap s.pops =
            ap (index cap) full
            ∙ index_lem c (s.pops + cap)
            ∙ slot_wraps cap s.pops (omega (arith, capacity_bounds c))
            ∙ sym (index_lem c s.pops) in
          let seen : seq_of cap s s.pops ≡ s.pushes =
            ap (λ (t : ℕ). (s.slots t).seq) (sym around) ∙ vacant in
          elim (v.waiting s.pops (omega arith) (omega (arith, capacity_bounds c))) [
            | inl a ↦ absurd (omega (arith, capacity_bounds c))
            | inr a ↦ absurd (omega (arith, capacity_bounds c))
          ]
      | no ne ↦ omega (arith, v.bounded)
    ]

    claim_tail-Fits : (p : Pc A) → Fits cap s p → Fits cap (claim_tail cap s i x tail) p
    unfolding claim_tail
    claim_tail-Fits idle f = tt
    claim_tail-Fits (push_load y) f = tt
    claim_tail-Fits (push_check y t) f = omega arith
    claim_tail-Fits (push_claim y t) f = (omega arith, λ a. absurd (omega (arith, f.0)))
    claim_tail-Fits (push_write y p) f = ground arith
    claim_tail-Fits (push_publish y p) f = ground arith
    claim_tail-Fits pop_load f = tt
    claim_tail-Fits (pop_check h) f = f
    claim_tail-Fits (pop_claim h) f = (f.0, λ a. ((f.1 a).0, omega (arith, (f.1 a).1)))
    claim_tail-Fits (pop_read p) f = f
    claim_tail-Fits (pop_release p y) f = ground (arith, v.ordered)

    pub claim_tail-Inv : Inv cap (claim_tail cap s i x tail)
    unfolding claim_tail
    claim_tail-Inv = record {
      tail_at = ap (λ (t : ℕ). (t + 1) % word) at_top ∙ mod-eq_of_lt (omega arith);
      head_at = v.head_at;
      ordered = omega (arith, v.ordered);
      bounded = omega (arith, has_room);
      small = λ p. omega (arith, v.small p);
      published = λ p a. ground (arith, v.published p a);
      waiting = λ p a b. ground (arith, v.waiting p a, vacant);
      ahead = v.ahead;
      behind = λ p a. elim (v.behind p a) [
        | inl done ↦ inl (ground (arith, v.ordered))
        | inr held ↦ inr (
            readers_kept v i (push_write x tail) p
              (λ b. absurd (none_ne_some (sym (ap reads e) ∙ b))) held)
      ];
      threads = λ j.
          update_cases (Fits cap (claim_tail cap s i x tail)) s.pc i (push_write x tail) j
            (λ same. ground (arith, at_top, vacant, v.ordered))
            (λ ne. claim_tail-Fits (s.pc j) (v.threads j));
      one_writer =
          claims_new writes (push_write x tail) refl
            (λ j q a b. omega (arith, at_top, (Written-Fits (s.pc j) q (v.threads j) a).0))
            v.one_writer;
      one_reader = claims_kept v i (push_write x tail) reads (λ q a. cc) v.one_reader;
    }

  module _ (head : ℕ) (e : s.pc i ≡ pop_claim head) (top : s.head ≡ head)
      (few : s.pushes < 2 ^ 62) where
    at_head : head ≡ s.pops
    at_head = sym top ∙ v.head_at

    filled : (seq_of cap s s.pops ≡ s.pops + 1) × (s.pops < s.pushes)
    filled =
        subst (λ (t : ℕ). (seq_of cap s t ≡ t + 1) × (t < s.pushes)) at_head
          ((Fits-at v i e).1 at_head)

    past : (p : ℕ) → s.pops ≤ p → seq_of cap s p ≡ p → s.pops + 1 ≤ p
    past p a b = elim (ℕ_discrete p s.pops) [
      | yes here ↦ absurd (omega (arith, filled, b, ap (seq_of cap s) here))
      | no ne ↦ omega arith
    ]

    claim_head-Fits : (p : Pc A) → Fits cap s p → Fits cap (claim_head cap s i head) p
    unfolding claim_head
    claim_head-Fits idle f = tt
    claim_head-Fits (push_load y) f = tt
    claim_head-Fits (push_check y t) f = f
    claim_head-Fits (push_claim y t) f = f
    claim_head-Fits (push_write y p) f = (f.0, past p f.1 f.2, f.2, f.3)
    claim_head-Fits (push_publish y p) f = ((f.0.0, past p f.0.1 f.0.2, f.0.2, f.0.3), f.1)
    claim_head-Fits pop_load f = tt
    claim_head-Fits (pop_check h) f = omega arith
    claim_head-Fits (pop_claim h) f = (omega (arith, f.0), λ a. absurd (omega (arith, f.0)))
    claim_head-Fits (pop_read p) f = (omega (arith, f.0), f.1, f.2)
    claim_head-Fits (pop_release p y) f = ((omega (arith, f.0.0), f.0.1, f.0.2), f.1)

    pub claim_head-Inv : Inv cap (claim_head cap s i head)
    unfolding claim_head
    claim_head-Inv = record {
      tail_at = v.tail_at;
      head_at = ap (λ (t : ℕ). (t + 1) % word) at_head ∙ mod-eq_of_lt (omega (arith, filled.1));
      ordered = omega (arith, filled.1);
      bounded = omega (arith, v.bounded);
      small = v.small;
      published = v.published;
      waiting = λ p a b. v.waiting p (omega arith) b;
      ahead = λ p a. v.ahead p (omega arith);
      behind = λ p a. elim (ℕ_discrete p s.pops) [
        | yes here ↦
            inr (i, ap reads (update_self s.pc i (pop_read head)) ∙ ap some (at_head ∙ sym here))
        | no ne ↦ elim (v.behind p (omega arith)) [
          | inl done ↦ inl done
          | inr held ↦ inr (
              readers_kept v i (pop_read head) p (λ b. absurd (none_ne_some (sym (ap reads e) ∙ b)))
                held)
        ]
      ];
      threads = λ j.
          update_cases (Fits cap (claim_head cap s i head)) s.pc i (pop_read head) j
            (λ same. (
              omega (arith, at_head),
              subst (λ (t : ℕ). seq_of cap s t ≡ t + 1) (sym at_head) filled.0,
              v.ahead head (omega (arith, at_head)),
            ))
            (λ ne. claim_head-Fits (s.pc j) (v.threads j));
      one_writer = claims_kept v i (pop_read head) writes (λ q a. cc) v.one_writer;
      one_reader =
          claims_new reads (pop_read head) refl
            (λ j q a b. omega (arith, at_head, reader_below (s.pc j) q (v.threads j) a))
            v.one_reader;
    }
