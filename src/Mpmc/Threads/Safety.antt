-- ===== src/Mpmc/Threads/Safety.antt =====
-- What the ring of src/mpmc_queue.h promises to several producers and consumers.
use message_center_cpp.Common.{
  ℕ, ◌+◌, ◌^◌, ◌≤◌, ◌<◌, ◌≡◌, ◌≢◌, ◌⊎◌, inl, inr, refl, sym, ap, ◌∙◌, Option, none, some, [], ◌∷◌,
  arith, ltb, if◌then◌else◌, lt→ltb, le→not_ltb, dec_lt,
}
use message_center_cpp.Mpmc.{index}
use message_center_cpp.Mpmc.Arith.{IsCapacity}
use message_center_cpp.Mpmc.Threads.{
  Pc, idle, push_load, push_check, push_claim, push_write, push_publish, pop_load, pop_check,
  pop_claim, pop_read, pop_release, System, Step, call_push, load_tail, check_push, full,
  reload_push, take_tail, miss_tail, write, store_push, call_pop, load_head, check_pop, empty,
  reload_pop, take_head, miss_head, read, store_pop, claim_tail, claim_head, publish, write_item,
  release, Reach, here, next,
}
use message_center_cpp.Mpmc.Threads.Invariant.{Inv, Fits, seq_of, writes, reads, start-Inv}
use message_center_cpp.Mpmc.Threads.Moves.{plain-Inv, check_push-Inv, check_pop-Inv, read-Inv}
use message_center_cpp.Mpmc.Threads.Claims.{claim_tail-Inv, claim_head-Inv}
use message_center_cpp.Mpmc.Threads.Stores.{write_item-Inv, publish-Inv, shared, neighbours}
use message_center_cpp.Mpmc.Threads.Releases.{release-Inv}

module _ {A : Type 0} {cap : ℕ} (c : IsCapacity cap) where
  Step-grows : {s t : System A} → Step cap s t → s.pushes ≤ t.pushes
  unfolding claim_tail claim_head publish write_item release
  Step-grows (take_tail i x tail e top) = omega arith
  Step-grows (call_push i x e) = omega arith
  Step-grows (load_tail i x e) = omega arith
  Step-grows (check_push i x tail e d) = omega arith
  Step-grows (full i x tail e d) = omega arith
  Step-grows (reload_push i x tail e d) = omega arith
  Step-grows (miss_tail i x tail e) = omega arith
  Step-grows (write i x tail e) = omega arith
  Step-grows (store_push i x tail e) = omega arith
  Step-grows (call_pop i e) = omega arith
  Step-grows (load_head i e) = omega arith
  Step-grows (check_pop i head e d) = omega arith
  Step-grows (empty i head e d) = omega arith
  Step-grows (reload_pop i head e d) = omega arith
  Step-grows (take_head i head e top) = omega arith
  Step-grows (miss_head i head e) = omega arith
  Step-grows (read i head e) = omega arith
  Step-grows (store_pop i head x e) = omega arith

  Step-Inv :
      {s t : System A}
      → Step cap s t
      → t.pushes < 2 ^ 62
      → s.pushes < 2 ^ 62
      → Inv cap s
      → Inv cap t
  unfolding claim_tail
  Step-Inv (call_push i x e) few few' v = plain-Inv v i (push_load x) e refl refl refl tt
  Step-Inv (load_tail i x e) few few' v =
      plain-Inv v i (push_check x _) e refl refl refl (omega (arith, v.tail_at))
  Step-Inv (check_push i x tail e d) few few' v = check_push-Inv v i few c x tail e d
  Step-Inv (full i x tail e d) few few' v = plain-Inv v i idle e refl refl refl tt
  Step-Inv (reload_push i x tail e d) few few' v = plain-Inv v i (push_load x) e refl refl refl tt
  Step-Inv (take_tail i x tail e top) few few' v = claim_tail-Inv v i c x tail e top few
  Step-Inv (miss_tail i x tail e) few few' v =
      plain-Inv v i (push_check x _) e refl refl refl (omega (arith, v.tail_at))
  Step-Inv (write i x tail e) few few' v = write_item-Inv v i c x tail e
  Step-Inv (store_push i x tail e) few few' v = publish-Inv v i c x tail e few'
  Step-Inv (call_pop i e) few few' v = plain-Inv v i pop_load e refl refl refl tt
  Step-Inv (load_head i e) few few' v =
      plain-Inv v i (pop_check _) e refl refl refl (omega (arith, v.head_at))
  Step-Inv (check_pop i head e d) few few' v = check_pop-Inv v i few c head e d
  Step-Inv (empty i head e d) few few' v = plain-Inv v i idle e refl refl refl tt
  Step-Inv (reload_pop i head e d) few few' v = plain-Inv v i pop_load e refl refl refl tt
  Step-Inv (take_head i head e top) few few' v = claim_head-Inv v i c head e top few'
  Step-Inv (miss_head i head e) few few' v =
      plain-Inv v i (pop_check _) e refl refl refl (omega (arith, v.head_at))
  Step-Inv (read i head e) few few' v = read-Inv v i head e
  Step-Inv (store_pop i head x e) few few' v = release-Inv v i c head x e few'

  pub Reach-Inv : {garbage : A} {s : System A} → Reach cap garbage s → s.pushes < 2 ^ 62 → Inv cap s
  Reach-Inv {garbage} here few = start-Inv c garbage
  Reach-Inv (next {s} r st) few =
      let before : s.pushes < 2 ^ 62 = omega (arith, Step-grows st) in
      Step-Inv st few before (Reach-Inv r before)

  -- In every interleaving of producers and consumers, as long as fewer than 2 ^ 62 items have been
  -- pushed: a position that has been claimed for a pop, and that no thread is still reading, has
  -- been handed out once, with the item that was pushed at it; a position that has not been
  -- claimed for a pop has not been handed out.
  pub popped_once :
      {garbage : A} {s : System A} (p : ℕ)
      → Reach cap garbage s
      → s.pushes < 2 ^ 62
      → ((i : ℕ) → reads (s.pc i) ≢ some p)
      → s.delivered p ≡ (if ltb p s.pops then s.sent p ∷ [] else [])
  popped_once {s} p r few quiet =
      let v = Reach-Inv r few in
      elim (dec_lt p s.pops) [
        | yes out ↦
            rw (lt→ltb p s.pops out)
              (elim (v.behind p out) [ inl done ↦ done | inr held ↦ absurd (quiet held.0 held.1) ])
        | no waits ↦ rw (le→not_ltb p s.pops (omega arith)) (v.ahead p (omega arith))
      ]

  -- The position whose slot's data a thread is about to store or load.
  abbrev pub accesses : Pc A → Option ℕ
  accesses (push_write x p) = some p
  accesses (pop_read p) = some p
  accesses _ = none

  -- what a thread that is about to access a slot has claimed, and the number it left there
  abbrev Access : System A → ℕ → ℕ → Type 0
  Access s i p =
      ((writes (s.pc i) ≡ some p) × (seq_of cap s p ≡ p))
      ⊎ ((reads (s.pc i) ≡ some p) × (seq_of cap s p ≡ p + 1))

  access_lem :
      (s : System A) (i p : ℕ) (r : Pc A)
      → s.pc i ≡ r
      → Fits cap s r
      → accesses r ≡ some p
      → Access s i p
  access_lem s i p (push_write x q) e f a =
      let it : q ≡ p = cc in inl (ap writes e ∙ a, rw it at f.2)
  access_lem s i p (pop_read q) e f a = let it : q ≡ p = cc in inr (ap reads e ∙ a, rw it at f.1)
  access_lem s i p idle e f a = cc
  access_lem s i p (push_load _) e f a = cc
  access_lem s i p (push_check _ _) e f a = cc
  access_lem s i p (push_claim _ _) e f a = cc
  access_lem s i p (push_publish _ _) e f a = cc
  access_lem s i p pop_load e f a = cc
  access_lem s i p (pop_check _) e f a = cc
  access_lem s i p (pop_claim _) e f a = cc
  access_lem s i p (pop_release _ _) e f a = cc

  -- In every interleaving, as long as fewer than 2 ^ 62 items have been pushed, two threads that
  -- are about to access the data of one slot are the same thread: there is no data race.
  pub no_data_race :
      {garbage : A} {s : System A} (i j p q : ℕ)
      → Reach cap garbage s
      → s.pushes < 2 ^ 62
      → accesses (s.pc i) ≡ some p
      → accesses (s.pc j) ≡ some q
      → index cap p ≡ index cap q
      → i ≡ j
  no_data_race {s} i j p q r few a b same =
      let v = Reach-Inv r few in
      let number = shared v i c p q same in
      elim (access_lem s i p (s.pc i) refl (v.threads i) a) [
        | inl w ↦ elim (access_lem s j q (s.pc j) refl (v.threads j) b) [
          | inl w' ↦ v.one_writer i j p w.0 (w'.0 ∙ ap some (sym w'.1 ∙ sym number ∙ w.1))
          | inr r' ↦ neighbours v i c p q same (sym w.1 ∙ number ∙ r'.1)
        ]
        | inr r' ↦ elim (access_lem s j q (s.pc j) refl (v.threads j) b) [
          | inl w' ↦ neighbours v i c q p (sym same) (sym w'.1 ∙ sym number ∙ r'.1)
          | inr r'' ↦ v.one_reader i j p r'.0 (r''.0 ∙ ap some (omega (arith, r''.1, number, r'.1)))
        ]
      ]

  -- In every interleaving, as long as fewer than 2 ^ 62 items have been pushed, the positions that
  -- are claimed for a pop are among those claimed for a push, and at most `cap` are between.
  pub window_bounds :
      {garbage : A} {s : System A}
      → Reach cap garbage s
      → s.pushes < 2 ^ 62
      → (s.pops ≤ s.pushes) × (s.pushes ≤ s.pops + cap)
  window_bounds r few = ((Reach-Inv r few).ordered, (Reach-Inv r few).bounded)
