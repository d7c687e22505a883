-- ===== src/Emulator/Ratio.antt =====
-- `dispatchRatio` of src/eventqueue_emulator.h.
use message_center_cpp.Common.{
  ℕ, zero, suc, ◌+◌, ◌<◌, ◌≡◌, refl, ap, subst, ◌∙◌, some, List, [], ◌∷◌, ◌++◌, length, take, drop,
  ltb, arith, Bool-cases, inl, inr, lt→ltb, le→not_ltb,
}
use message_center_cpp.Mpmc.Arith.{IsCapacity}
use message_center_cpp.Payload.{Store}
use message_center_cpp.Mailbox.{Outside}
use message_center_cpp.Message.Letters.{Letter, calls_of, all_calls}
use message_center_cpp.Message.Mail.{Mail-nil_payloads}
use message_center_cpp.Emulator.{Emulator, dispatch_ratio}
use message_center_cpp.Emulator.Letters.{
  Nodes, Holding, After, dispatch_fast-nil, dispatch_fast-cons, dispatch_bulk-nil,
  dispatch_bulk-cons,
}
use message_center_cpp.Emulator.Drain.{After-trans, After-refl}

-- Before each bulk letter go up to `n` fast ones, and after the last all that are left.
abbrev pub schedule : ℕ → List Letter → List Letter → List Letter
schedule n fs [] = fs
schedule n fs (b ∷ bs) = take n fs ++ b ∷ schedule n (drop n fs) bs

-- The same where `left` of the fast ones may still go before the first bulk letter.
abbrev schedule_from : ℕ → ℕ → List Letter → List Letter → List Letter
schedule_from n left fs [] = fs
schedule_from n left fs (b ∷ bs) = take left fs ++ b ∷ schedule n (drop left fs) bs

schedule_from-full : (n : ℕ) (fs bs : List Letter) → schedule_from n n fs bs ≡ schedule n fs bs
schedule_from-full n fs [] = refl
schedule_from-full n fs (b ∷ bs) = refl

module _ {fcap bcap : ℕ} (c : IsCapacity fcap) (d : IsCapacity bcap) {before : Store}
    (outs : ℕ → ℕ → Outside) (n : ℕ) where
  -- a round with no bulk letter
  ratio_rest :
      (fuel count k : ℕ) {e : Emulator} {ns : Nodes} (fs : List Letter)
      → Holding fcap bcap before e ns fs []
      → length fs < fuel
      → (e' : Emulator) × (dispatch_ratio fcap bcap outs n fuel count k e
          ≡ some (count + length fs, e'))
        × After fcap bcap before e (all_calls fs) [] [] e'
  unfolding dispatch_ratio
  ratio_rest zero count k fs v enough = absurd (omega arith)
  ratio_rest (suc fuel) count k {e} [] v enough = elim (Bool-cases (ltb k n)) [
    | inl t ↦ (
      e,
      rw
          (
            t,
            dispatch_fast-nil e c [] (outs count 0) v,
            dispatch_bulk-nil e d [] (outs count 1) v,
            dispatch_fast-nil e c [] (outs count 2) v,
          )
          (ap (λ i. some (i, e)) (omega arith)),
      After-refl v,
    )
    | inr f ↦ (
      e,
      rw (f, dispatch_bulk-nil e d [] (outs count 1) v, dispatch_fast-nil e c [] (outs count 2) v)
          (ap (λ i. some (i, e)) (omega arith)),
      After-refl v,
    )
  ]
  ratio_rest (suc fuel) count k {e} (l ∷ fs) v enough = elim (Bool-cases (ltb k n)) [
    | inl t ↦
        let (e1, went, a) = dispatch_fast-cons e c l fs [] (outs count 0) v in
        let (e2, rest, a') = ratio_rest fuel (count + 1) (k + 1) fs a.holds (omega arith) in
        (e2, rw (t, went, rest) (ap (λ i. some (i, e2)) (omega arith)), After-trans a a')
    | inr f ↦
        let (e1, went, a) = dispatch_fast-cons e c l fs [] (outs count 2) v in
        let (e2, rest, a') = ratio_rest fuel (count + 1) (k + 1) fs a.holds (omega arith) in
        (
          e2,
          rw (f, dispatch_bulk-nil e d (l ∷ fs) (outs count 1) v, went, rest)
              (ap (λ i. some (i, e2)) (omega arith)),
          After-trans a a',
        )
  ]

  ratio_from :
      (fuel count k left : ℕ) {e : Emulator} {ns : Nodes} (fs bs : List Letter)
      → k + left ≡ n
      → Holding fcap bcap before e ns fs bs
      → length fs + length bs < fuel
      → (e' : Emulator) × (dispatch_ratio fcap bcap outs n fuel count k e
          ≡ some (count + length fs + length bs, e'))
        × After fcap bcap before e (all_calls (schedule_from n left fs bs)) [] [] e'
  unfolding dispatch_ratio
  ratio_from zero count k left fs bs sum v enough = absurd (omega arith)
  ratio_from (suc fuel) count k left fs [] sum v enough =
      let (e1, rest, a) = ratio_rest (suc fuel) count k fs v (omega arith) in
      (e1, rest ∙ ap (λ i. some (i, e1)) (omega arith), a)
  ratio_from (suc fuel) count k zero {e} fs (b ∷ bs) sum v enough =
      let (e1, went, a) = dispatch_bulk-cons e d b fs bs (outs count 1) v in
      let (e2, rest, a') =
        ratio_from fuel (count + 1) 0 n fs bs (omega arith) a.holds (omega arith) in
      (
        e2,
        rw (le→not_ltb k n (omega arith), went, rest) (ap (λ i. some (i, e2)) (omega arith)),
        subst (λ ls. After fcap bcap before e (calls_of b ++ all_calls ls) [] [] e2)
            (schedule_from-full n fs bs) (After-trans a a'),
      )
  ratio_from (suc fuel) count k (suc left) {e} [] (b ∷ bs) sum v enough =
      let (e1, went, a) = dispatch_bulk-cons e d b [] bs (outs count 1) v in
      let (e2, rest, a') =
        ratio_from fuel (count + 1) 0 n [] bs (omega arith) a.holds (omega arith) in
      (
        e2,
        rw (lt→ltb k n (omega arith), dispatch_fast-nil e c (b ∷ bs) (outs count 0) v, went, rest)
            (ap (λ i. some (i, e2)) (omega arith)),
        subst (λ ls. After fcap bcap before e (calls_of b ++ all_calls ls) [] [] e2)
            (schedule_from-full n [] bs) (After-trans a a'),
      )
  ratio_from (suc fuel) count k (suc left) {e} (l ∷ fs) (b ∷ bs) sum v enough =
      let (e1, went, a) = dispatch_fast-cons e c l fs (b ∷ bs) (outs count 0) v in
      let (e2, rest, a') =
        ratio_from fuel (count + 1) (k + 1) left fs (b ∷ bs) (omega arith) a.holds (omega arith) in
      (
        e2,
        rw (lt→ltb k n (omega arith), went, rest) (ap (λ i. some (i, e2)) (omega arith)),
        After-trans a a',
      )

  -- `dispatchRatio` ends after one round more than there are messages and has dispatched them all:
  -- up to `fastPerBulk` fast ones before each bulk one, both kinds in the order of their posts, and
  -- what is left of the fast ones at the end. No payload is left that was not there before the posts.
  pub dispatch_ratio_lem :
      (fuel : ℕ) {e : Emulator} {ns : Nodes} (fs bs : List Letter)
      → Holding fcap bcap before e ns fs bs
      → length fs + length bs < fuel
      → (e' : Emulator) × (dispatch_ratio fcap bcap outs n fuel 0 0 e
          ≡ some (length fs + length bs, e'))
        × After fcap bcap before e (all_calls (schedule n fs bs)) [] [] e'
        × ((p : ℕ) → e'.payloads p ≡ before p)
  dispatch_ratio_lem fuel {e} fs bs v enough =
      let (e', went, a) = ratio_from fuel 0 0 n fs bs (omega arith) v enough in
      (
        e',
        went ∙ ap (λ i. some (i, e')) (omega arith),
        subst (λ ls. After fcap bcap before e (all_calls ls) [] [] e') (schedule_from-full n fs bs)
            a,
        Mail-nil_payloads a.holds.bulk,
      )
