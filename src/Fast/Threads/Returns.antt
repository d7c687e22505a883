-- ===== src/Fast/Threads/Returns.antt =====
-- The steps of `release` at the end of `dispatchOne` in src/eventqueue_fast.h and the invariant of
-- State.
use message_center_cpp.Common.{
  ℕ, ◌≡◌, ◌≢◌, refl, sym, ap, subst, ◌∙◌, false, Option, none, some, [], ◌∷◌, count, arith,
}
use message_center_cpp.Mpmc.Threads.Invariant.{update_cases}
use message_center_cpp.PoolLockFree
use message_center_cpp.PoolLockFree.Owners.{Chain-update}
use message_center_cpp.Mailbox.{update}
use message_center_cpp.Fast.Threads.{
  Pc, idle, calling, deleting, returning, linking, swinging, pops, System, go_on, drop, link, put,
}
use message_center_cpp.Fast.Threads.Nodes.{holds, one_owner}
use message_center_cpp.Fast.Threads.Pool.{Stands, step-Pooled, stay-Pooled}
use message_center_cpp.Fast.Threads.Frame.{works, At}
use message_center_cpp.Fast.Threads.Log.{return-Told}
use message_center_cpp.Fast.Threads.Moves.{put-Owned}
use message_center_cpp.Fast.Threads.State.{Inv, story}
use message_center_cpp.Fast.Threads.Gains.{pool-Inv, walk-Told}

module _ {cap : ℕ} {s : System} (v : Inv cap s) (i node : ℕ) where
  -- The thread leaves its message, and has its node still.
  pub leave-Inv :
      (pos : ℕ) (p : Pc)
      → holds p ≡ some node
      → works p ≡ none
      → pops p ≡ false
      → At (story s v.jobs) p
      → Stands s.mailbox.message_pool v.free p
      → s.pc i ≡ calling node pos []
      → Inv cap (go_on s i p)
  unfolding go_on
  leave-Inv pos p has off out at_p stands e =
      pool-Inv v i p s.mailbox.message_pool (λ x h. ap holds e ∙ sym has ∙ h)
        (return-Told v.told i node pos p off at_p e) v.owned.chain
        (stay-Pooled v.pooled i p s.mailbox.message_pool refl (λ h. cc) stands)

  pub drop-Inv : s.pc i ≡ deleting node → Inv cap (drop s i node)
  unfolding drop
  drop-Inv e =
      pool-Inv v i idle (drop s i node).mailbox.message_pool (λ x h. ground (arith, h))
        (walk-Told v i idle (sym (ap works e)) tt) v.owned.chain
        (step-Pooled v.pooled i idle (drop s i node).mailbox.message_pool v.free (λ h. cc)
          (λ x h. (refl, h)) (λ j x ne h. refl) tt)

  to_link-Inv :
      holds (s.pc i) ≡ some node
      → works (s.pc i) ≡ none
      → Inv cap (go_on s i (linking node s.mailbox.message_pool.free_list))
  unfolding go_on
  to_link-Inv has off =
      let p = linking node s.mailbox.message_pool.free_list in
      pool-Inv v i p s.mailbox.message_pool (λ x h. has ∙ h) (walk-Told v i p (sym off) tt)
        v.owned.chain (stay-Pooled v.pooled i p s.mailbox.message_pool refl (λ h. cc) tt)

  pub load-Inv :
      s.pc i ≡ returning node → Inv cap (go_on s i (linking node s.mailbox.message_pool.free_list))
  load-Inv e = to_link-Inv (ap holds e) (ap works e)

  pub reload-Inv :
      (old_head : Option ℕ)
      → s.pc i ≡ swinging node old_head
      → Inv cap (go_on s i (linking node s.mailbox.message_pool.free_list))
  reload-Inv old_head e = to_link-Inv (ap holds e) (ap works e)

  -- Only the thread that holds a node writes to it, and the node is not on the stack.
  pub link-Inv :
      (old_head : Option ℕ) → s.pc i ≡ linking node old_head → Inv cap (link s i node old_head)
  unfolding link
  link-Inv old_head e =
      let pool = s.mailbox.message_pool in
      let mine = v.owned.held i node (ap holds e) in
      let p = swinging node old_head in
      let pool' : PoolLockFree.Pool = record pool { next = update pool.next node old_head } in
      let elsewhere : (x : ℕ) → node ≢ x → update pool.next node old_head x ≡ pool.next x = λ x ne.
        update_cases (λ (o : Option ℕ). o ≡ pool.next x) pool.next node old_head x
          (λ q. absurd (ne q)) (λ q. refl) in
      pool-Inv v i p pool' (λ x h. ap holds e ∙ h) (walk-Told v i p (sym (ap works e)) tt)
        (Chain-update pool.next pool.free_list node old_head v.free mine.not_free v.owned.chain)
        (step-Pooled v.pooled i p pool' v.free (λ h. cc)
          (λ x h. (
            elsewhere x (λ q. omega (arith, h, subst (λ y. count y v.free ≡ 0) q mine.not_free)),
            h,
          ))
          (λ j x ne h. elsewhere x (λ q. ne (one_owner v.owned i j x (ap holds e ∙ ap some q) h)))
          (update_cases (λ (o : Option ℕ). o ≡ old_head) pool.next node old_head node (λ q. refl)
            (λ ne. absurd (ne refl))))

  pub put-Inv :
      (old_head : Option ℕ)
      → s.pc i ≡ swinging node old_head
      → s.mailbox.message_pool.free_list ≡ old_head
      → Inv cap (put s i node)
  unfolding put
  put-Inv old_head e h = record {
    free = node ∷ v.free;
    nodes = v.nodes;
    owner = v.owner;
    jobs = v.jobs;
    past = v.past;
    waiting = v.waiting;
    owned =
        put-Owned v.owned i node old_head e h
          (subst (Stands s.mailbox.message_pool v.free) e (v.pooled.stands i));
    loaded = v.loaded;
    told = walk-Told v i idle (sym (ap works e)) tt;
    topics = v.topics;
    pooled =
        step-Pooled v.pooled i idle (put s i node).mailbox.message_pool (node ∷ v.free) (λ h. cc)
          (λ x k. (refl, omega arith)) (λ j x ne k. refl) tt;
  }
