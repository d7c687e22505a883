-- ===== src/Fast/Threads/Letters.antt =====
-- The memory of src/eventqueue_fast.h while nodes are written, read and released in any order: what
-- each node in use holds.
use message_center_cpp.Common.{
  ℕ, suc, ◌+◌, ◌<◌, ◌≤◌, ◌≡◌, ◌≢◌, refl, sym, ap, subst, ◌∙◌, Option, none, some, length, arith,
  ℕ_discrete, ==_iff, ne→not_==,
}
use message_center_cpp.Mpmc.Threads.Invariant.{update_cases}
use message_center_cpp.Payload.{Store}
use message_center_cpp.Mailbox.{update}
use message_center_cpp.Message.{FastMessage}
use message_center_cpp.Message.Letters.{Letter, shared}
use message_center_cpp.Fast.Threads.Loads.{Load, Load-kept, Released}

-- What a node in use is for: a letter, and how many calls of it are left.
abbrev pub Jobs : Type 0
Jobs = ℕ → Option (Letter × ℕ)

pub record Loaded (payloads : Store) (messages : ℕ → FastMessage) (fresh : ℕ) (jobs : Jobs)
    : Type 0 where
  pub loads : (x : ℕ) (l : Letter) (n : ℕ) → jobs x ≡ some (l, n) → Load payloads (messages x) l n
  pub few : (x : ℕ) (l : Letter) (n : ℕ) → jobs x ≡ some (l, n) → n ≤ 16
  pub apart :
      (x y p : ℕ)
      → jobs x ≢ none
      → jobs y ≢ none
      → shared (messages x) ≡ some p
      → shared (messages y) ≡ some p
      → x ≡ y
  pub born : (x p : ℕ) → jobs x ≢ none → shared (messages x) ≡ some p → p < fresh
  pub unborn : (p : ℕ) → fresh ≤ p → payloads p ≡ none

some-none : {A : Type 0} (x : A) → some x ≢ none
some-none x e = ground (arith, e)

has_job : {A : Type 0} {x : A} {o : Option A} → o ≡ some x → o ≢ none
has_job {A} {x} e = λ dead. some-none x (sym e ∙ dead)

both_cases :
    {A B : Type 0} (P : A → B → Type 0) (f : ℕ → A) (g : ℕ → B) (i : ℕ) (a : A) (b : B) (j : ℕ)
    → (i ≡ j → P a b)
    → (i ≢ j → P (f j) (g j))
    → P (update f i a j) (update g i b j)
both_cases P f g i a b j h k = elim (ℕ_discrete i j) [
  | yes e ↦ rw ((==_iff i j).1 e) (h e)
  | no ne ↦ rw (ne→not_== i j ne) (k ne)
]

same_job : {a b : Letter × ℕ} → some a ≡ some b → a ≡ b
same_job {a} {b} e = cc

module _ {payloads : Store} {messages : ℕ → FastMessage} {fresh : ℕ} {jobs : Jobs}
    (v : Loaded payloads messages fresh jobs) where
  -- a node that was in use for something is free for something else
  pub reserve-Loaded : (node : ℕ) → Loaded payloads messages (fresh + 1) (update jobs node none)
  reserve-Loaded node = record {
    loads = λ x l n.
        update_cases (λ (j : Option (Letter × ℕ)). j ≡ some (l, n) → Load payloads (messages x) l n)
          jobs node none x (λ e h. ground (arith, h)) (λ ne h. v.loads x l n h);
    few = λ x l n.
        update_cases (λ (j : Option (Letter × ℕ)). j ≡ some (l, n) → n ≤ 16) jobs node none x
          (λ e h. ground (arith, h)) (λ ne h. v.few x l n h);
    apart = λ x y p.
        update_cases
          (λ (j : Option (Letter × ℕ)).
            j ≢ none
            → update jobs node none y ≢ none
            → shared (messages x) ≡ some p
            → shared (messages y) ≡ some p
            → x ≡ y)
          jobs node none x (λ e h. absurd (h refl))
          (λ ne h.
            update_cases
              (λ (j : Option (Letter × ℕ)).
                j ≢ none → shared (messages x) ≡ some p → shared (messages y) ≡ some p → x ≡ y)
              jobs node none y (λ e k. absurd (k refl)) (λ ne' k. v.apart x y p h k));
    born = λ x p.
        update_cases
          (λ (j : Option (Letter × ℕ)). j ≢ none → shared (messages x) ≡ some p → p < fresh + 1)
          jobs node none x (λ e h. absurd (h refl)) (λ ne h sh. omega (arith, v.born x p h sh));
    unborn = λ p h. v.unborn p (omega arith);
  }

  -- What `post` writes: the message at its node, and perhaps a new payload.
  pub write-Loaded :
      (node : ℕ) (l : Letter) (m : FastMessage) (t : Store)
      → length l.observers ≤ 16
      → Load t m l (length l.observers)
      → ((p : ℕ) → shared m ≡ some p → p ≡ fresh)
      → ((p : ℕ) → shared m ≢ some p → t p ≡ payloads p)
      → Loaded t
          (update messages node m)
          (fresh + 1)
          (update jobs node (some (l, length l.observers)))
  write-Loaded node l m t small load new others =
      let job : Option (Letter × ℕ) = some (l, length l.observers) in
      let jobs' : Jobs = update jobs node job in
      let messages' : ℕ → FastMessage = update messages node m in
      let kept : (x : ℕ)
          → jobs x ≢ none
          → (p : ℕ) → shared (messages x) ≡ some p
          → t p ≡ payloads p =
        λ x h p sh. others p (λ e. omega (arith, new p e, v.born x p h sh)) in
      let no_more : (x p : ℕ) → jobs x ≢ none → shared (messages x) ≡ some p → shared m ≢ some p =
        λ x p h sh e. omega (arith, new p e, v.born x p h sh) in
      record {
        loads = λ x k n.
            both_cases (λ j w. j ≡ some (k, n) → Load t w k n) jobs messages node job m x
              (λ e h. subst (λ (q : Letter × ℕ). Load t m q.0 q.1) (same_job h) load)
              (λ ne h. Load-kept t (v.loads x k n h) (kept x (has_job h)));
        few = λ x k n.
            update_cases (λ (j : Option (Letter × ℕ)). j ≡ some (k, n) → n ≤ 16) jobs node job x
              (λ e h. omega (arith, ap (λ (q : Letter × ℕ). q.1) (same_job h)))
              (λ ne h. v.few x k n h);
        apart = λ x y p.
            both_cases
              (λ j w.
                j ≢ none
                → jobs' y ≢ none
                → shared w ≡ some p
                → shared (messages' y) ≡ some p
                → x ≡ y)
              jobs messages node job m x
              (λ e h.
                both_cases (λ j w. j ≢ none → shared m ≡ some p → shared w ≡ some p → x ≡ y) jobs
                  messages node job m y (λ e' k sh sh'. sym e ∙ e')
                  (λ ne k sh sh'. absurd (no_more y p k sh' sh)))
              (λ ne h.
                both_cases
                  (λ j w. j ≢ none → shared (messages x) ≡ some p → shared w ≡ some p → x ≡ y) jobs
                  messages node job m y (λ e' k sh sh'. absurd (no_more x p h sh sh'))
                  (λ ne' k sh sh'. v.apart x y p h k sh sh'));
        born = λ x p.
            both_cases (λ j w. j ≢ none → shared w ≡ some p → p < fresh + 1) jobs messages node job
              m x (λ e h sh. omega (arith, new p sh)) (λ ne h sh. omega (arith, v.born x p h sh));
        unborn = λ p h. others p (λ e. omega (arith, new p e)) ∙ v.unborn p (omega arith);
      }

  -- What the release after a call leaves: the other nodes keep their payloads.
  pub release-Loaded :
      (node : ℕ) (l : Letter) (n : ℕ) (t : Store)
      → jobs node ≡ some (l, suc n)
      → Released payloads (messages node) l n t
      → Loaded t messages fresh (update jobs node (some (l, n)))
  release-Loaded node l n t e left =
      let job : Option (Letter × ℕ) = some (l, n) in
      let jobs' : Jobs = update jobs node job in
      let used : (x : ℕ) → jobs' x ≢ none → jobs x ≢ none = λ x.
        update_cases (λ (j : Option (Letter × ℕ)). j ≢ none → jobs x ≢ none) jobs node job x
          (λ q h. subst (λ y. jobs y ≢ none) q (has_job e)) (λ ne h. h) in
      record {
        loads = λ x k c.
            update_cases (λ (j : Option (Letter × ℕ)). j ≡ some (k, c) → Load t (messages x) k c)
              jobs node job x
              (λ q h.
                subst (λ y. Load t (messages y) k c) q
                  (subst (λ (r : Letter × ℕ). Load t (messages node) r.0 r.1) (same_job h)
                    left.still))
              (λ ne h. Load-kept t (v.loads x k c h) (λ p sh.
                left.others p (λ sh'. ne (v.apart node x p (has_job e) (has_job h) sh' sh))));
        few = λ x k c.
            update_cases (λ (j : Option (Letter × ℕ)). j ≡ some (k, c) → c ≤ 16) jobs node job x
              (λ q h.
                omega (arith, ap (λ (r : Letter × ℕ). r.1) (same_job h), v.few node l (suc n) e))
              (λ ne h. v.few x k c h);
        apart = λ x y p h k. v.apart x y p (used x h) (used y k);
        born = λ x p h. v.born x p (used x h);
        unborn = λ p h. left.unborn p (v.unborn p h);
      }
