-- ===== src/Emulator/Drain.antt =====
-- `dispatchPriority` and `dispatchAll` of src/eventqueue_emulator.h.
use message_center_cpp.Common.{
  ℕ, zero, suc, ◌+◌, ◌<◌, ◌≡◌, refl, sym, ap, subst, ◌∙◌, some, List, [], ◌∷◌, ◌++◌, length, take,
  drop, min, append-nil, append_assoc, arith,
}
use message_center_cpp.Mpmc.Arith.{IsCapacity}
use message_center_cpp.Payload.{Store}
use message_center_cpp.Mailbox.{Outside}
use message_center_cpp.Message.{FastCall}
use message_center_cpp.Message.Letters.{Letter, calls_of, all_calls}
use message_center_cpp.Message.Mail.{Mail-nil_payloads}
use message_center_cpp.Emulator.{
  Emulator, dispatch_fast, dispatch_bulk, drain, dispatch_priority, dispatch_all,
}
use message_center_cpp.Emulator.Letters.{
  Nodes, Holding, After, dispatch_fast-nil, dispatch_fast-cons, dispatch_bulk-nil,
  dispatch_bulk-cons,
}

pub all_calls-append : (xs ys : List Letter) → all_calls (xs ++ ys) ≡ all_calls xs ++ all_calls ys
all_calls-append [] ys = refl
all_calls-append (x ∷ xs) ys =
    ap (λ cs. calls_of x ++ cs) (all_calls-append xs ys)
    ∙ sym (append_assoc (calls_of x) (all_calls xs) (all_calls ys))

module _ {fcap bcap : ℕ} {before : Store} where
  -- One step and then more.
  pub After-trans :
      {e e' e'' : Emulator} {calls more : List FastCall} {fs bs fs' bs' : List Letter}
      → After fcap bcap before e calls fs bs e'
      → After fcap bcap before e' more fs' bs' e''
      → After fcap bcap before e (calls ++ more) fs' bs' e''
  After-trans {e} {e'} {e''} {calls} {more} v w = record {
    nodes = w.nodes;
    holds = w.holds;
    log = w.log ∙ ap (λ cs. cs ++ more) v.log ∙ append_assoc e.calls calls more;
    topics = w.topics ∙ v.topics;
  }

  pub After-refl :
      {e : Emulator} {ns : Nodes} {fs bs : List Letter}
      → Holding fcap bcap before e ns fs bs
      → After fcap bcap before e [] fs bs e
  After-refl {e} {ns} v = record {
    nodes = ns;
    holds = v;
    log = sym (append-nil e.calls);
    topics = refl;
  }

  drain-fast :
      (c : IsCapacity fcap) (outs : ℕ → Outside) (fuel count : ℕ) {e : Emulator} {ns : Nodes}
      (fs bs : List Letter)
      → Holding fcap bcap before e ns fs bs
      → length fs < fuel
      → (e' : Emulator) × (drain (dispatch_fast fcap) outs fuel count e
          ≡ some (count + length fs, e'))
        × After fcap bcap before e (all_calls fs) [] bs e'
  unfolding drain
  drain-fast c outs zero count fs bs v enough = absurd (omega arith)
  drain-fast c outs (suc fuel) count {e} [] bs v enough = (
    e,
    rw (dispatch_fast-nil e c bs (outs count) v) (ap (λ n. some (n, e)) (omega arith)),
    After-refl v,
  )
  drain-fast c outs (suc fuel) count {e} (l ∷ fs) bs v enough =
      let (e1, went, a) = dispatch_fast-cons e c l fs bs (outs count) v in
      let (e2, rest, a') = drain-fast c outs fuel (count + 1) fs bs a.holds (omega arith) in
      (e2, rw (went, rest) (ap (λ n. some (n, e2)) (omega arith)), After-trans a a')

  drain-bulk :
      (c : IsCapacity bcap) (outs : ℕ → Outside) (fuel count : ℕ) {e : Emulator} {ns : Nodes}
      (fs bs : List Letter)
      → Holding fcap bcap before e ns fs bs
      → length bs < fuel
      → (e' : Emulator) × (drain (dispatch_bulk bcap) outs fuel count e
          ≡ some (count + length bs, e'))
        × After fcap bcap before e (all_calls bs) fs [] e'
  unfolding drain
  drain-bulk c outs zero count fs bs v enough = absurd (omega arith)
  drain-bulk c outs (suc fuel) count {e} fs [] v enough = (
    e,
    rw (dispatch_bulk-nil e c fs (outs count) v) (ap (λ n. some (n, e)) (omega arith)),
    After-refl v,
  )
  drain-bulk c outs (suc fuel) count {e} fs (l ∷ bs) v enough =
      let (e1, went, a) = dispatch_bulk-cons e c l fs bs (outs count) v in
      let (e2, rest, a') = drain-bulk c outs fuel (count + 1) fs bs a.holds (omega arith) in
      (e2, rw (went, rest) (ap (λ n. some (n, e2)) (omega arith)), After-trans a a')

  -- `dispatchPriority` ends after one round more than there are fast messages. It calls the observers
  -- of every fast message and then those of one bulk message, if there is one, each once and in
  -- order; it answers how many messages these are, and the other bulk messages wait as before.
  pub dispatch_priority_lem :
      (c : IsCapacity fcap) (d : IsCapacity bcap) (outs : ℕ → Outside) (out : Outside) (fuel : ℕ)
      {e : Emulator} {ns : Nodes} (fs bs : List Letter)
      → Holding fcap bcap before e ns fs bs
      → length fs < fuel
      → (e' : Emulator) × (dispatch_priority fcap bcap outs out fuel e
          ≡ some (length fs + min 1 (length bs), e'))
        × After fcap bcap before e (all_calls (fs ++ take 1 bs)) [] (drop 1 bs) e'
  unfolding dispatch_priority
  dispatch_priority_lem c d outs out fuel fs [] v enough =
      let (e1, drained, a) = drain-fast c outs fuel 0 fs [] v enough in
      (
        e1,
        rw (drained, dispatch_bulk-nil e1 d [] out a.holds) (ap (λ n. some (n, e1)) (omega arith)),
        rw (append-nil fs) a,
      )
  dispatch_priority_lem c d outs out fuel {e} fs (l ∷ bs) v enough =
      let (e1, drained, a) = drain-fast c outs fuel 0 fs (l ∷ bs) v enough in
      let (e2, went, a') = dispatch_bulk-cons e1 d l [] bs out a.holds in
      (
        e2,
        rw (drained, went) (ap (λ n. some (n, e2)) (omega arith)),
        subst (λ cs. After fcap bcap before e cs [] bs e2)
            (ap (λ cs. all_calls fs ++ cs) (sym (append-nil (calls_of l)))
              ∙ sym (all_calls-append fs (l ∷ [])))
            (After-trans a a'),
      )

  -- `dispatchAll` ends after one round more in each of its loops than there are messages. It calls
  -- the observers of every fast message and then those of every bulk message, each once and in
  -- order; both queues are empty then, and no payload is left that was not there before the posts.
  pub dispatch_all_lem :
      (c : IsCapacity fcap) (d : IsCapacity bcap) (outs bulk_outs : ℕ → Outside)
      (fuel bulk_fuel : ℕ) {e : Emulator} {ns : Nodes} (fs bs : List Letter)
      → Holding fcap bcap before e ns fs bs
      → length fs < fuel
      → length bs < bulk_fuel
      → (e' : Emulator) × (dispatch_all fcap bcap outs bulk_outs fuel bulk_fuel e
          ≡ some (length fs + length bs, e'))
        × After fcap bcap before e (all_calls (fs ++ bs)) [] [] e'
        × ((p : ℕ) → e'.payloads p ≡ before p)
  unfolding dispatch_all
  dispatch_all_lem c d outs bulk_outs fuel bulk_fuel {e} fs bs v enough enough_bulk =
      let (e1, drained, a) = drain-fast c outs fuel 0 fs bs v enough in
      let (e2, rest, a') =
        drain-bulk d bulk_outs bulk_fuel (0 + length fs) [] bs a.holds enough_bulk in
      (
        e2,
        rw (drained, rest) (ap (λ n. some (n, e2)) (omega arith)),
        subst (λ cs. After fcap bcap before e cs [] [] e2) (sym (all_calls-append fs bs))
            (After-trans a a'),
        Mail-nil_payloads a'.holds.bulk,
      )
