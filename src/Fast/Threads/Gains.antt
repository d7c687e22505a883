-- ===== src/Fast/Threads/Gains.antt =====
-- The steps of `acquire` in `post` of src/eventqueue_fast.h and the invariant of State.
use message_center_cpp.Common.{
  ℕ, ◌+◌, ◌<◌, ◌≤◌, ◌≡◌, refl, sym, ap, subst, ◌∙◌, true, false, Option, none, some, List, [], ◌∷◌,
  length, count, arith,
}
use message_center_cpp.Message.{FastObserver}
use message_center_cpp.Mpmc.Threads.Invariant.{update_cases}
use message_center_cpp.PoolLockFree
use message_center_cpp.PoolLockFree.Owners.{Chain}
use message_center_cpp.Mailbox.{update}
use message_center_cpp.Mailbox.Queued.{map-update}
use message_center_cpp.Fast.Threads.{
  Pc, idle, popping, claiming, filling, pops, System, with_pool, load_free, read_next, gain,
  popped_pool, grown_pool,
}
use message_center_cpp.Fast.Threads.Nodes.{holds, gain-Owned, relink-Owned}
use message_center_cpp.Fast.Threads.Pool.{
  Stands, Pooled, head-Stands, step-Pooled, stay-Pooled, take-Pooled,
}
use message_center_cpp.Fast.Threads.Letters.{reserve-Loaded}
use message_center_cpp.Fast.Threads.Frame.{works, At, Told}
use message_center_cpp.Fast.Threads.Log.{stay-Told}
use message_center_cpp.Fast.Threads.State.{Inv, story, other_job}

-- The head of a stack that is not empty.
Chain-some :
    (next : ℕ → Option ℕ) (head : Option ℕ) (free : List ℕ) (x : ℕ)
    → Chain next head free
    → head ≡ some x
    → (rest : List ℕ) × (free ≡ x ∷ rest) × Chain next (next x) rest
Chain-some next head [] x c e = ground (arith, c, e)
Chain-some next head (y ∷ free) x c e =
    let same : y ≡ x = ground (arith, c.0, e) in
    (free, ap (λ z. z ∷ free) same, subst (λ z. Chain next (next z) free) same c.1)

module _ {cap : ℕ} {s : System} (v : Inv cap s) (i : ℕ) where
  -- A step of a thread on the pool by which no free node comes or goes.
  pub pool-Inv :
      (p : Pc) (pool : PoolLockFree.Pool)
      → ((x : ℕ) → holds p ≡ some x → holds (s.pc i) ≡ some x)
      → Told (story s v.jobs) (update s.pc i p) v.nodes v.past v.waiting
      → Chain pool.next pool.free_list v.free
      → Pooled pool v.free (update s.pc i p)
      → Inv cap (record s { mailbox = with_pool s pool; pc = update s.pc i p })
  pool-Inv p pool same told chained pooled = record {
    free = v.free;
    nodes = v.nodes;
    owner = v.owner;
    jobs = v.jobs;
    past = v.past;
    waiting = v.waiting;
    owned =
        relink-Owned v.owned i p same
          (record s { mailbox = with_pool s pool; pc = update s.pc i p }) refl refl chained
          (omega arith);
    loaded = v.loaded;
    told = told;
    topics = v.topics;
    pooled = pooled;
  }

  -- The thread neither takes a message nor leaves one.
  pub walk-Told :
      (p : Pc)
      → works p ≡ works (s.pc i)
      → At (story s v.jobs) p
      → Told (story s v.jobs) (update s.pc i p) v.nodes v.past v.waiting
  walk-Told p same at_p =
      stay-Told v.told i p (story s v.jobs) v.nodes v.waiting same v.told.sent_is refl v.told.queued
        at_p (λ j x ne k. refl) (λ pos k. refl)

  load_free-Inv :
      (os : List FastObserver) (topic_id : ℕ) (bytes : Option (List ℕ))
      → works (s.pc i) ≡ none
      → (0 < length os) × (length os ≤ 16)
      → ((j : ℕ) → pops (s.pc j) ≡ true → i ≡ j)
      → Inv cap (load_free s i os topic_id bytes)
  unfolding load_free
  load_free-Inv os topic_id bytes off few single =
      let pool = s.mailbox.message_pool in
      let p = popping os topic_id bytes pool.free_list in
      pool-Inv p pool (λ x h. ground (arith, h)) (walk-Told p (sym off) few) v.owned.chain
        (stay-Pooled v.pooled i p pool refl (λ h. single)
          (head-Stands pool v.free os topic_id bytes pool.free_list v.owned.chain))

  pub begin-Inv :
      (topic_id : ℕ) (bytes : Option (List ℕ))
      → s.pc i ≡ idle
      → 0 < length (s.topics topic_id)
      → ((j : ℕ) → pops (s.pc j) ≡ false)
      → Inv cap (load_free s i (s.topics topic_id) topic_id bytes)
  begin-Inv topic_id bytes e h single =
      load_free-Inv (s.topics topic_id) topic_id bytes (ap works e) (h, v.topics topic_id)
        (λ j k. cc (single j))

  pub missed-Inv :
      (os : List FastObserver) (topic_id : ℕ) (bytes : Option (List ℕ)) (old_head : ℕ)
      (new_head : Option ℕ)
      → s.pc i ≡ claiming os topic_id bytes old_head new_head
      → Inv cap (load_free s i os topic_id bytes)
  missed-Inv os topic_id bytes old_head new_head e =
      load_free-Inv os topic_id bytes (ap works e)
        (subst (At (story s v.jobs)) e (v.told.threads i)) (λ j k. v.pooled.alone i j (ap pops e) k)

  pub read-Inv :
      (os : List FastObserver) (topic_id : ℕ) (bytes : Option (List ℕ)) (old_head : ℕ)
      → s.pc i ≡ popping os topic_id bytes (some old_head)
      → Inv cap (read_next s i os topic_id bytes old_head)
  unfolding read_next
  read-Inv os topic_id bytes old_head e =
      let pool = s.mailbox.message_pool in
      let p = claiming os topic_id bytes old_head (pool.next old_head) in
      pool-Inv p pool (λ x h. ground (arith, h))
        (walk-Told p (sym (ap works e)) (subst (At (story s v.jobs)) e (v.told.threads i)))
        v.owned.chain
        (stay-Pooled v.pooled i p pool refl (λ h j k. v.pooled.alone i j (ap pops e) k)
          (subst (Stands pool v.free) e (v.pooled.stands i), refl))

  gain-Inv :
      (node : ℕ) (pool : PoolLockFree.Pool) (os : List FastObserver) (topic_id : ℕ)
      (bytes : Option (List ℕ)) (free' : List ℕ)
      → works (s.pc i) ≡ none
      → (0 < length os) × (length os ≤ 16)
      → Chain pool.next pool.free_list free'
      → ((x : ℕ) → count x free' + count x (node ∷ []) ≤ count x v.free + count x (s.fresh ∷ []))
      → Pooled pool free' (update s.pc i (filling node os topic_id bytes))
      → Inv cap (gain s i node pool os topic_id bytes)
  unfolding gain
  gain-Inv node pool os topic_id bytes free' off few chained from pooled =
      let own = gain-Owned v.owned i node pool os topic_id bytes free' chained from in
      let p = filling node os topic_id bytes in
      let mine : update s.pc i p i ≡ p =
        update_cases (λ (r : Pc). r ≡ p) s.pc i p i (λ q. refl) (λ ne. absurd (ne refl)) in
      record {
        free = free';
        nodes = v.nodes;
        owner = update v.owner node (some i);
        jobs = update v.jobs node none;
        past = v.past;
        waiting = v.waiting;
        owned = own;
        loaded = reserve-Loaded v.loaded node;
        told =
            stay-Told v.told i p
              (story (gain s i node pool os topic_id bytes) (update v.jobs node none)) v.nodes
              v.waiting (sym off) v.told.sent_is refl
              (map-update v.jobs node none v.nodes (own.held i node (ap holds mine)).not_queued
                ∙ v.told.queued)
              few
              (λ j x ne k. other_job own v.jobs none i j node x ne (ap holds mine) (
                update_cases (λ (r : Pc). holds r ≡ some x) s.pc i p j (λ q. absurd (ne q))
                  (λ ne'. k)))
              (λ pos k. refl);
        topics = v.topics;
        pooled = pooled;
      }

  pub claimed-Inv :
      (os : List FastObserver) (topic_id : ℕ) (bytes : Option (List ℕ)) (old_head : ℕ)
      (new_head : Option ℕ)
      → s.pc i ≡ claiming os topic_id bytes old_head new_head
      → s.mailbox.message_pool.free_list ≡ some old_head
      → Inv cap (gain s i old_head (popped_pool s new_head) os topic_id bytes)
  unfolding popped_pool
  claimed-Inv os topic_id bytes old_head new_head e h =
      let pool = s.mailbox.message_pool in
      let (rest, split, chained) =
        Chain-some pool.next pool.free_list v.free old_head v.owned.chain h in
      let (on, same) = subst (Stands pool v.free) e (v.pooled.stands i) in
      let pool' : PoolLockFree.Pool = record pool { free_list = new_head } in
      gain-Inv old_head pool' os topic_id bytes rest (ap works e)
        (subst (At (story s v.jobs)) e (v.told.threads i))
        (subst (λ n. Chain pool.next n rest) same chained) (λ x. omega (arith, ap (count x) split))
        (take-Pooled v.pooled i (filling old_head os topic_id bytes) pool' rest (ap pops e) refl
          refl tt)

  pub made-Inv :
      (os : List FastObserver) (topic_id : ℕ) (bytes : Option (List ℕ))
      → s.pc i ≡ popping os topic_id bytes none
      → Inv cap (gain s i s.fresh (grown_pool s) os topic_id bytes)
  unfolding grown_pool
  made-Inv os topic_id bytes e =
      gain-Inv s.fresh (grown_pool s) os topic_id bytes v.free (ap works e)
        (subst (At (story s v.jobs)) e (v.told.threads i)) v.owned.chain (λ x. omega arith)
        (step-Pooled v.pooled i (filling s.fresh os topic_id bytes) (grown_pool s) v.free (λ h. cc)
          (λ x h. (refl, h)) (λ j x ne h. refl) tt)
