-- ===== src/Mpmc/Threads/Moves.antt =====
-- The steps of a thread on a ring that only look: loads, and a compare-exchange that fails.
use native.Mathlib.Nat.{mod-eq_of_lt}
use message_center_cpp.Common.{
  ℕ, ◌+◌, ◌%◌, ◌^◌, ◌≤◌, ◌<◌, ◌≡◌, inl, inr, refl, sym, ap, ◌∙◌, Option, none, some, arith, subst,
}
use message_center_cpp.Mpmc.{word, Verdict, update}
use message_center_cpp.Mpmc.Arith.{IsCapacity, capacity_bounds}
use message_center_cpp.Mpmc.Threads.{
  Pc, push_check, push_claim, pop_check, pop_claim, pop_read, pop_release, System, slot_of, moved,
  push_verdict, pop_verdict,
}
use message_center_cpp.Mpmc.Threads.Invariant.{
  Inv, Fits, Reading, seq_of, writes, reads, update_cases, verdict-claim,
}

module _ {A : Type 0} {cap : ℕ} {s : System A} (v : Inv cap s) (i : ℕ) where
  module _ (p : Pc A) where
    -- two threads with one position, where thread `i` has at most the one that it had
    pub claims_kept :
        (f : Pc A → Option ℕ)
        → ((q : ℕ) → f p ≡ some q → f (s.pc i) ≡ some q)
        → ((j k q : ℕ) → f (s.pc j) ≡ some q → f (s.pc k) ≡ some q → j ≡ k)
        → (j k q : ℕ) → f (update s.pc i p j) ≡ some q
        → f (update s.pc i p k) ≡ some q
        → j ≡ k
    claims_kept f old one j k q a b = one j k q (back j a) (back k b)
      where
        back : (l : ℕ) → f (update s.pc i p l) ≡ some q → f (s.pc l) ≡ some q
        back l =
            update_cases (λ (r : Pc A). f r ≡ some q → f (s.pc l) ≡ some q) s.pc i p l
              (λ e a. ap (λ t. f (s.pc t)) (sym e) ∙ old q a) (λ ne a. a)

    pub readers_kept :
        (q : ℕ)
        → (reads (s.pc i) ≡ some q → reads p ≡ some q)
        → (j : ℕ) × (reads (s.pc j) ≡ some q)
        → (j : ℕ) × (reads (update s.pc i p j) ≡ some q)
    readers_kept q new (j, e) = (
      j,
      update_cases (λ (r : Pc A). reads r ≡ some q) s.pc i p j
          (λ same. new (ap (λ t. reads (s.pc t)) same ∙ e)) (λ ne. e),
    )

    moved-Inv :
        Fits cap s p
        → ((q : ℕ) → writes p ≡ some q → writes (s.pc i) ≡ some q)
        → ((q : ℕ) → reads p ≡ some q → reads (s.pc i) ≡ some q)
        → ((q : ℕ) → reads (s.pc i) ≡ some q → reads p ≡ some q)
        → Inv cap (moved cap s i p)
    moved-Inv fits w r r' = record {
      tail_at = v.tail_at;
      head_at = v.head_at;
      ordered = v.ordered;
      bounded = v.bounded;
      small = v.small;
      published = v.published;
      waiting = v.waiting;
      ahead = v.ahead;
      behind = λ q h. elim (v.behind q h) [ inl e ↦ inl e | inr e ↦ inr (readers_kept q (r' q) e) ];
      threads = λ j. update_cases (Fits cap s) s.pc i p j (λ e. fits) (λ ne. v.threads j);
      one_writer = claims_kept writes w v.one_writer;
      one_reader = claims_kept reads r v.one_reader;
    }

  -- what thread `i` knows where it stands
  pub Fits-at : {p : Pc A} → s.pc i ≡ p → Fits cap s p
  Fits-at {p} e = subst (Fits cap s) e (v.threads i)

  -- a thread that has claimed nothing, before the step and after it
  pub plain-Inv :
      {old : Pc A} (p : Pc A)
      → s.pc i ≡ old
      → reads old ≡ none
      → writes p ≡ none
      → reads p ≡ none
      → Fits cap s p
      → Inv cap (moved cap s i p)
  plain-Inv p e r' w r fits =
      let now = ap reads e ∙ r' in moved-Inv p fits (λ q a. cc) (λ q a. cc) (λ q a. cc)

  module _ (few : s.pushes < 2 ^ 62) (c : IsCapacity cap) where
    seq_small : (p : ℕ) → seq_of cap s p < word
    seq_small p = omega (arith, v.small p, capacity_bounds c)

    pub check_push-Inv :
        (x : A) (tail : ℕ)
        → s.pc i ≡ push_check x tail
        → push_verdict cap s tail ≡ Verdict.claim
        → Inv cap (moved cap s i (push_claim x tail))
    check_push-Inv x tail e claim =
        let known : tail ≤ s.pushes = Fits-at e in
        plain-Inv (push_claim x tail) e refl refl refl
          (known, λ top. verdict-claim _ _ (seq_small tail) (omega arith) claim)

    pub check_pop-Inv :
        (head : ℕ)
        → s.pc i ≡ pop_check head
        → pop_verdict cap s head ≡ Verdict.claim
        → Inv cap (moved cap s i (pop_claim head))
    check_pop-Inv head e claim =
        let known : head ≤ s.pops = Fits-at e in
        let within : (head + 1) % word ≡ head + 1 = mod-eq_of_lt (omega (arith, v.ordered)) in
        let found : seq_of cap s head ≡ head + 1 =
          verdict-claim _ _ (seq_small head) (omega (arith, within, v.ordered)) claim ∙ within in
        plain-Inv (pop_claim head) e refl refl refl
          (known, λ top. (found, (v.published head found).0))

  pub read-Inv :
      (head : ℕ)
      → s.pc i ≡ pop_read head
      → Inv cap (moved cap s i (pop_release head (slot_of cap s head).item))
  read-Inv head e =
      let known : Reading cap s head = Fits-at e in
      moved-Inv (pop_release head (slot_of cap s head).item) (known, (v.published head known.1).1)
        (λ q a. cc) (λ q a. ap reads e ∙ a) (λ q a. sym (ap reads e) ∙ a)
