-- ===== src/Fast/Threads/Log.antt =====
-- The steps of the threads of src/eventqueue_fast.h on what was sent, taken and called.
use message_center_cpp.Common.{
  ℕ, ◌+◌, ◌<◌, ◌≡◌, ◌≢◌, ◌⊎◌, inl, inr, refl, sym, ap, subst, ◌∙◌, Option, none, some, List, [],
  ◌∷◌, ◌++◌, map, length, arith, ℕ_discrete, dec_lt, length-append, some_inj, cons_head, cons_tail,
  append-nil, append_assoc,
}
use message_center_cpp.Mpmc.Threads.Invariant.{update_cases}
use message_center_cpp.Mailbox.{update}
use message_center_cpp.Message.{FastObserver}
use message_center_cpp.Message.Letters.{Letter, call_of, calls_of}
use message_center_cpp.Fast.Threads.{
  Pc, idle, popping, claiming, filling, pushing, calling, releasing, deleting, returning, linking,
  swinging,
}
use message_center_cpp.Fast.Threads.Nodes.{holds}
use message_center_cpp.Fast.Threads.Frame.{
  calls_at, letter_at, works, Story, Dispatches, At, At-kept, Told, letter_at-past, letter_at-front,
}

worker-popped : (t : Story) (p : Pc) (pos : ℕ) → At t p → works p ≡ some pos → pos < t.taken
worker-popped t idle pos a e = ground (arith, e)
worker-popped t (popping os topic_id bytes old_head) pos a e = ground (arith, e)
worker-popped t (claiming os topic_id bytes old_head new_head) pos a e = ground (arith, e)
worker-popped t (deleting node) pos a e = ground (arith, e)
worker-popped t (returning node) pos a e = ground (arith, e)
worker-popped t (linking node old_head) pos a e = ground (arith, e)
worker-popped t (swinging node old_head) pos a e = ground (arith, e)
worker-popped t (filling node os topic_id bytes) pos a e = ground (arith, e)
worker-popped t (pushing node l) pos a e = ground (arith, e)
worker-popped t (calling node q rest) pos a e = subst (λ n. n < t.taken) (some_inj e) a.popped
worker-popped t (releasing node q rest) pos a e = subst (λ n. n < t.taken) (some_inj e) a.popped

is_at : (o : Option ℕ) (pos : ℕ) → (o ≡ some pos) ⊎ (o ≢ some pos)
is_at none pos = inr (λ e. ground (arith, e))
is_at (some q) pos = elim (ℕ_discrete q pos) [
  | yes e ↦ inl (ap some e)
  | no ne ↦ inr (λ e. ne (some_inj e))
]

module _ {t : Story} {pc : ℕ → Pc} {nodes : List ℕ} {past waiting : List Letter}
    (v : Told t pc nodes past waiting) (i : ℕ) where
  -- A step of thread `i` that neither takes a message nor leaves one.
  pub stay-Told :
      (p : Pc) (u : Story) (nodes' : List ℕ) (waiting' : List Letter)
      → works p ≡ works (pc i)
      → u.sent ≡ past ++ waiting'
      → u.taken ≡ t.taken
      → map u.jobs nodes' ≡ map (λ l. some (l, length l.observers)) waiting'
      → At u p
      → ((j x : ℕ) → i ≢ j → holds (pc j) ≡ some x → u.jobs x ≡ t.jobs x)
      → ((pos : ℕ) → works (pc i) ≢ some pos → calls_at pos u.log ≡ calls_at pos t.log)
      → Told u (update pc i p) nodes' past waiting'
  stay-Told p u nodes' waiting' same sent taken queued at_p jobs log =
      let before : (pos : ℕ) → pos < t.taken → letter_at u.sent pos ≡ letter_at t.sent pos =
        λ pos h.
          ap (λ ls. letter_at ls pos) sent
          ∙ letter_at-front past waiting' waiting pos (omega (arith, v.taken_is))
          ∙ ap (λ ls. letter_at ls pos) (sym v.sent_is) in
      let work : (j : ℕ) → works (update pc i p j) ≡ works (pc j) = λ j.
        update_cases (λ (r : Pc). works r ≡ works (pc j)) pc i p j
          (λ e. same ∙ ap (λ k. works (pc k)) e) (λ ne. refl) in
      record {
        sent_is = sent;
        taken_is = taken ∙ v.taken_is;
        queued = queued;
        threads = λ j.
            update_cases (λ (r : Pc). At u r) pc i p j (λ e. at_p)
              (λ ne.
                At-kept t u (pc j)
                  (record {
                    jobs = λ x h. jobs j x ne h;
                    sent = before;
                    taken = omega (arith, taken);
                    log = λ pos h. log pos (λ k. ne (v.one_worker i j pos k h));
                  })
                  (v.threads j));
        one_worker = λ j k pos e f. v.one_worker j k pos (sym (work j) ∙ e) (sym (work k) ∙ f);
        later = λ pos h.
            log pos (λ k. omega (arith, worker-popped t (pc i) pos (v.threads i) k, taken))
            ∙ v.later pos (omega (arith, taken));
        done = λ pos l e h.
            let lt : pos < t.taken = omega (arith, taken) in
            elim (v.done pos l (sym (before pos lt) ∙ e) lt) [
              | inl all ↦ elim (is_at (works (pc i)) pos) [
                | inl k ↦ inr (i, work i ∙ k)
                | inr ne ↦ inl (log pos ne ∙ all)
              ]
              | inr w ↦ inr (w.0, work w.0 ∙ w.1)
            ];
      }

  -- Thread `i` takes the oldest message.
  pub pop-Told :
      (node : ℕ) (nodes' : List ℕ) (l : Letter) (rest : List Letter) (os : List FastObserver)
      → pc i ≡ idle
      → nodes ≡ node ∷ nodes'
      → waiting ≡ l ∷ rest
      → os ≡ l.observers
      → Told
          (record t { taken = t.taken + 1 })
          (update pc i (calling node t.taken os))
          nodes'
          (past ++ l ∷ [])
          rest
  pop-Told node nodes' l rest os e split first obs =
      let u : Story = record t { taken = t.taken + 1 } in
      let p : Pc = calling node t.taken os in
      let heads : t.jobs node ∷ map t.jobs nodes'
          ≡ some (l, length l.observers) ∷ map (λ k. some (k, length k.observers)) rest =
        ap (map t.jobs) (sym split)
        ∙ v.queued
        ∙ ap (map (λ k. some (k, length k.observers))) first in
      let whole : t.sent ≡ past ++ l ∷ rest = v.sent_is ∙ ap (λ ls. past ++ ls) first in
      let busy : (j pos : ℕ) → works (pc j) ≡ some pos → pos < t.taken =
        λ j pos. worker-popped t (pc j) pos (v.threads j) in
      record {
        sent_is = whole ∙ sym (append_assoc past (l ∷ []) rest);
        taken_is = omega (arith, v.taken_is, length-append {0} past (l ∷ []));
        queued = cons_tail heads;
        threads = λ j.
            update_cases (λ (r : Pc). At u r) pc i p j
              (λ q. record {
                letter = l;
                job = cons_head heads ∙ ap (λ ks. some (l, length ks)) (sym obs);
                popped = omega arith;
                was_sent =
                    ap (λ ls. letter_at ls t.taken) whole
                    ∙ ap (letter_at (past ++ l ∷ rest)) v.taken_is
                    ∙ letter_at-past past l rest;
                so_far =
                    ap (λ cs. cs ++ map (call_of l) os) (v.later t.taken (omega arith))
                    ∙ ap (map (call_of l)) obs;
              })
              (λ ne.
                At-kept t u (pc j)
                  (record {
                    jobs = λ x h. refl;
                    sent = λ pos h. refl;
                    taken = omega arith;
                    log = λ pos h. refl;
                  })
                  (v.threads j));
        one_worker = λ j k pos.
            update_cases
              (λ (r : Pc). works r ≡ some pos → works (update pc i p k) ≡ some pos → j ≡ k) pc i p j
              (λ q h.
                update_cases (λ (r : Pc). works r ≡ some pos → j ≡ k) pc i p k (λ q' h'. sym q ∙ q')
                  (λ ne' h'. absurd (omega (arith, busy k pos h', some_inj h))))
              (λ ne h.
                update_cases (λ (r : Pc). works r ≡ some pos → j ≡ k) pc i p k
                  (λ q' h'. absurd (omega (arith, busy j pos h, some_inj h')))
                  (λ ne' h'. v.one_worker j k pos h h'));
        later = λ pos h. v.later pos (omega arith);
        done = λ pos k at h. elim (dec_lt pos t.taken) [
          | yes lt ↦ elim (v.done pos k at lt) [
            | inl all ↦ inl all
            | inr w ↦ inr (
              w.0,
              update_cases (λ (r : Pc). works r ≡ some pos) pc i p w.0
                  (λ q. ground (arith, w.1, e, ap (λ n. works (pc n)) q)) (λ ne. w.1),
            )
          ]
          | no ge ↦ inr (
            i,
            update_cases (λ (r : Pc). works r ≡ some pos) pc i p i (λ q. ap some (omega arith))
                (λ ne. absurd (ne refl)),
          )
        ];
      }

  -- Thread `i` leaves its message after the last call.
  pub return-Told :
      (node pos : ℕ) (p : Pc)
      → works p ≡ none
      → At t p
      → pc i ≡ calling node pos []
      → Told t (update pc i p) nodes past waiting
  return-Told node pos p off at_p e =
      let mine : Dispatches t node pos 0 [] = subst (At t) e (v.threads i) in
      let left : (j : ℕ) (q : ℕ) → works (update pc i p j) ≡ some q → works (pc j) ≡ some q = λ j q.
        update_cases (λ (r : Pc). works r ≡ some q → works (pc j) ≡ some q) pc i p j
          (λ same h. ground (arith, h, off)) (λ ne h. h) in
      record {
        sent_is = v.sent_is;
        taken_is = v.taken_is;
        queued = v.queued;
        threads = λ j. update_cases (λ (r : Pc). At t r) pc i p j (λ q. at_p) (λ ne. v.threads j);
        one_worker = λ j k q h h'. v.one_worker j k q (left j q h) (left k q h');
        later = v.later;
        done = λ q l at h. elim (v.done q l at h) [
          | inl all ↦ inl all
          | inr w ↦ elim (ℕ_discrete i w.0) [
            | yes same ↦
                let here : pos ≡ q =
                  some_inj (sym (ap works e) ∙ ap (λ n. works (pc n)) same ∙ w.1) in
                let what : mine.letter ≡ l =
                  some_inj (sym mine.was_sent ∙ ap (letter_at t.sent) here ∙ at) in
                inl (
                  ap (λ n. calls_at n t.log) (sym here)
                  ∙ sym (append-nil (calls_at pos t.log))
                  ∙ mine.so_far
                  ∙ ap calls_of what)
            | no ne ↦ inr (
              w.0,
              update_cases (λ (r : Pc). works r ≡ some q) pc i p w.0 (λ same. absurd (ne same))
                  (λ ne'. w.1),
            )
          ]
        ];
      }
