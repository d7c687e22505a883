-- ===== src/Fast/Threads/Pool.antt =====
-- What the threads of src/eventqueue_fast.h that are in the pool know of its stack.
use message_center_cpp.Common.{
  ℕ, ◌≤◌, ◌≡◌, ◌≢◌, refl, sym, ap, subst, ◌∙◌, true, false, Option, none, some, List, [], ◌∷◌,
  count, arith,
}
use message_center_cpp.Message.{FastObserver}
use message_center_cpp.Mpmc.Threads.Invariant.{update_cases}
use message_center_cpp.PoolLockFree
use message_center_cpp.PoolLockFree.Owners.{Chain}
use message_center_cpp.Mailbox.{update}
use message_center_cpp.Fast.Threads.{
  Pc, idle, popping, claiming, filling, pushing, calling, releasing, deleting, returning, linking,
  swinging, pops, Begins, System,
}
use message_center_cpp.Fast.Threads.Nodes.{holds}

abbrev pub Stands : PoolLockFree.Pool → List ℕ → Pc → Type 0
Stands pool free (popping os topic_id bytes (some old_head)) = 1 ≤ count old_head free
Stands pool free (claiming os topic_id bytes old_head new_head) =
    (1 ≤ count old_head free) × (pool.next old_head ≡ new_head)
Stands pool free (swinging node old_head) = pool.next node ≡ old_head
Stands pool free _ = Unit

-- One thread at most is in `popFree`. The head that it loaded is on the stack still, and has the
-- `next` that it read, since nobody else takes nodes off.
pub record Pooled (pool : PoolLockFree.Pool) (free : List ℕ) (pc : ℕ → Pc) : Type 0 where
  pub alone : (i j : ℕ) → pops (pc i) ≡ true → pops (pc j) ≡ true → i ≡ j
  pub stands : (i : ℕ) → Stands pool free (pc i)

pub begin-Pooled :
    {cap : ℕ} {s : System} (free : List ℕ)
    → Begins cap s free
    → Pooled s.mailbox.message_pool free s.pc
begin-Pooled {cap} {s} free v = record {
  alone = λ i j e. ground (arith, v.all_idle i);
  stands = λ i. subst (Stands s.mailbox.message_pool free) (sym (v.all_idle i)) tt;
}

pub head-Stands :
    (pool : PoolLockFree.Pool) (free : List ℕ) (os : List FastObserver) (topic_id : ℕ)
    (bytes : Option (List ℕ)) (head : Option ℕ)
    → Chain pool.next head free
    → Stands pool free (popping os topic_id bytes head)
head-Stands pool free os topic_id bytes none c = tt
head-Stands pool [] os topic_id bytes (some x) c = ground arith
head-Stands pool (y ∷ free) os topic_id bytes (some x) c = ground arith

-- A pool that a thread outside of `popFree` does not notice.
Stands-outside :
    (pool pool' : PoolLockFree.Pool) (free free' : List ℕ) (p : Pc)
    → pops p ≡ false
    → ((x : ℕ) → holds p ≡ some x → pool'.next x ≡ pool.next x)
    → Stands pool free p
    → Stands pool' free' p
Stands-outside pool pool' free free' (popping os topic_id bytes head) out same h = ground arith
Stands-outside pool pool' free free' (claiming os topic_id bytes x head) out same h = ground arith
Stands-outside pool pool' free free' (swinging node old_head) out same h = same node refl ∙ h
Stands-outside pool pool' free free' idle out same h = tt
Stands-outside pool pool' free free' (filling node os topic_id bytes) out same h = tt
Stands-outside pool pool' free free' (pushing node l) out same h = tt
Stands-outside pool pool' free free' (calling node pos rest) out same h = tt
Stands-outside pool pool' free free' (releasing node pos rest) out same h = tt
Stands-outside pool pool' free free' (deleting node) out same h = tt
Stands-outside pool pool' free free' (returning node) out same h = tt
Stands-outside pool pool' free free' (linking node old_head) out same h = tt

-- A pool with the same nodes on the stack or more.
Stands-kept :
    (pool pool' : PoolLockFree.Pool) (free free' : List ℕ) (p : Pc)
    → ((x : ℕ) → 1 ≤ count x free → (pool'.next x ≡ pool.next x) × (1 ≤ count x free'))
    → ((x : ℕ) → holds p ≡ some x → pool'.next x ≡ pool.next x)
    → Stands pool free p
    → Stands pool' free' p
Stands-kept pool pool' free free' (popping os topic_id bytes none) on same h = tt
Stands-kept pool pool' free free' (popping os topic_id bytes (some x)) on same h = (on x h).1
Stands-kept pool pool' free free' (claiming os topic_id bytes x head) on same h =
    ((on x h.0).1, (on x h.0).0 ∙ h.1)
Stands-kept pool pool' free free' (swinging node old_head) on same h = same node refl ∙ h
Stands-kept pool pool' free free' idle on same h = tt
Stands-kept pool pool' free free' (filling node os topic_id bytes) on same h = tt
Stands-kept pool pool' free free' (pushing node l) on same h = tt
Stands-kept pool pool' free free' (calling node pos rest) on same h = tt
Stands-kept pool pool' free free' (releasing node pos rest) on same h = tt
Stands-kept pool pool' free free' (deleting node) on same h = tt
Stands-kept pool pool' free free' (returning node) on same h = tt
Stands-kept pool pool' free free' (linking node old_head) on same h = tt

false-true : {P : Type 0} → false ≡ true → P
false-true e = cc

not_popping : (p : Pc) → (pops p ≡ true → ⊥) → pops p ≡ false
not_popping p h = grind arith

module _ {pool : PoolLockFree.Pool} {free : List ℕ} {pc : ℕ → Pc} (v : Pooled pool free pc)
    (i : ℕ) where
  alone-step :
      (p : Pc)
      → (pops p ≡ true → (j : ℕ) → pops (pc j) ≡ true → i ≡ j)
      → (j k : ℕ) → pops (update pc i p j) ≡ true
      → pops (update pc i p k) ≡ true
      → j ≡ k
  alone-step p single j k =
      update_cases (λ (r : Pc). pops r ≡ true → pops (update pc i p k) ≡ true → j ≡ k) pc i p j
        (λ q h.
          update_cases (λ (r : Pc). pops r ≡ true → j ≡ k) pc i p k (λ q' h'. sym q ∙ q')
            (λ ne h'. sym q ∙ single h k h'))
        (λ ne h.
          update_cases (λ (r : Pc). pops r ≡ true → j ≡ k) pc i p k
            (λ q' h'. sym (single h' j h) ∙ q') (λ ne' h'. v.alone j k h h'))

  -- Nothing is taken off the stack.
  pub step-Pooled :
      (p : Pc) (pool' : PoolLockFree.Pool) (free' : List ℕ)
      → (pops p ≡ true → (j : ℕ) → pops (pc j) ≡ true → i ≡ j)
      → ((x : ℕ) → 1 ≤ count x free → (pool'.next x ≡ pool.next x) × (1 ≤ count x free'))
      → ((j x : ℕ) → i ≢ j → holds (pc j) ≡ some x → pool'.next x ≡ pool.next x)
      → Stands pool' free' p
      → Pooled pool' free' (update pc i p)
  step-Pooled p pool' free' single on same here = record {
    alone = alone-step p single;
    stands = λ j.
        update_cases (λ (r : Pc). Stands pool' free' r) pc i p j (λ q. here)
          (λ ne. Stands-kept pool pool' free free' (pc j) on (λ x. same j x ne) (v.stands j));
  }

  -- The thread does not touch the pool.
  pub stay-Pooled :
      (p : Pc) (pool' : PoolLockFree.Pool)
      → pool' ≡ pool
      → (pops p ≡ true → (j : ℕ) → pops (pc j) ≡ true → i ≡ j)
      → Stands pool free p
      → Pooled pool' free (update pc i p)
  stay-Pooled p pool' e single here =
      subst (λ q. Pooled q free (update pc i p)) (sym e)
        (step-Pooled p pool free single (λ x h. (refl, h)) (λ j x ne h. refl) here)

  -- The thread in `popFree` takes a node off and leaves it.
  pub take-Pooled :
      (p : Pc) (pool' : PoolLockFree.Pool) (free' : List ℕ)
      → pops (pc i) ≡ true
      → pops p ≡ false
      → pool'.next ≡ pool.next
      → Stands pool' free' p
      → Pooled pool' free' (update pc i p)
  take-Pooled p pool' free' popping_now out same here = record {
    alone = alone-step p (λ h. false-true (sym out ∙ h));
    stands = λ j.
        update_cases (λ (r : Pc). Stands pool' free' r) pc i p j (λ q. here)
          (λ ne.
            Stands-outside pool pool' free free' (pc j)
              (not_popping (pc j) (λ h. ne (v.alone i j popping_now h)))
              (λ x h. ap (λ (f : ℕ → Option ℕ). f x) same) (v.stands j));
  }
