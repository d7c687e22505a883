-- ===== src/Fast/Threads/Posts.antt =====
-- The steps of `post` in src/eventqueue_fast.h and the invariant of State.
use message_center_cpp.Common.{
  ℕ, ◌<◌, ◌≤◌, ◌≡◌, ◌≢◌, refl, sym, ap, ap₂, subst, ◌∙◌, Option, some, List, [], ◌∷◌, ◌++◌, length,
  arith, append_assoc, some_inj,
}
use message_center_cpp.Mpmc.Arith.{IsCapacity}
use message_center_cpp.Mpmc.Threads.Invariant.{update_cases}
use message_center_cpp.Payload.{Store}
use message_center_cpp.Mailbox.{Mailbox, update, write, enqueue}
use message_center_cpp.Mailbox.Queued.{map-append, map-update}
use message_center_cpp.Mailbox.Answers.{enqueue_answer}
use message_center_cpp.Message.{FastObserver, FastMessage, compose}
use message_center_cpp.Message.Letters.{Letter, bytes_at, shared}
use message_center_cpp.Message.Compose.{compose-Carries}
use message_center_cpp.Fast.Threads.{Pc, idle, filling, pushing, System, outside, fill, push}
use message_center_cpp.Fast.Threads.Loads.{Load, Carries-Load}
use message_center_cpp.Fast.Threads.Nodes.{holds, stay-Owned}
use message_center_cpp.Fast.Threads.Pool.{stay-Pooled}
use message_center_cpp.Fast.Threads.Letters.{Jobs, Loaded, write-Loaded}
use message_center_cpp.Fast.Threads.Frame.{works, At}
use message_center_cpp.Fast.Threads.Log.{stay-Told}
use message_center_cpp.Fast.Threads.Moves.{push-Owned}
use message_center_cpp.Fast.Threads.State.{Inv, story, other_job}

-- what `post` has written for a letter
abbrev Wrote : Store → ℕ → Letter → FastMessage × Store → Type 0
Wrote before payload l q =
    Load q.1 q.0 l (length l.observers)
    × ((p : ℕ) → shared q.0 ≡ some p → p ≡ payload)
    × ((p : ℕ) → shared q.0 ≢ some p → q.1 p ≡ before p)

module _ {cap : ℕ} (c : IsCapacity cap) {s : System} (v : Inv cap s) where
  pub fill-Inv :
      (i node : ℕ) (os : List FastObserver) (topic_id : ℕ) (bytes : Option (List ℕ))
      (m : FastMessage) (t : Store)
      → s.pc i ≡ filling node os topic_id bytes
      → compose s.payloads os topic_id bytes
          (length (bytes_at bytes))
          s.fresh
          (s.mailbox.messages node)
        ≡ some (m, t)
      → Inv cap (fill s i node os topic_id bytes m t)
  unfolding fill write
  fill-Inv i node os topic_id bytes m t e h =
      let l : Letter = record { topic_id = topic_id; bytes = bytes_at bytes; observers = os } in
      let p : Pc = pushing node l in
      let job : Option (Letter × ℕ) = some (l, length os) in
      let same : holds p ≡ holds (s.pc i) = sym (ap holds e) in
      let (some_os, few_os) : (0 < length os) × (length os ≤ 16) =
        subst (At (story s v.jobs)) e (v.told.threads i) in
      let none_yet = v.loaded.unborn s.fresh (omega arith) in
      let (m', t', h', carries, unborn, others, new) =
        compose-Carries s.payloads s.payloads os topic_id s.fresh (s.mailbox.messages node) none_yet
          none_yet some_os (omega arith) bytes in
      let equal : Path (FastMessage × Store) (m', t') (m, t) = some_inj (sym h' ∙ h) in
      let (load, new_p, other) =
        subst (Wrote s.payloads s.fresh l) equal (Carries-Load carries, new, others) in
      let jobs' : Jobs = update v.jobs node job in
      let at_node : jobs' node ≡ job =
        update_cases (λ (q : Option (Letter × ℕ)). q ≡ job) v.jobs node job node (λ q. refl)
          (λ ne. absurd (ne refl)) in
      record {
        free = v.free;
        nodes = v.nodes;
        owner = v.owner;
        jobs = jobs';
        past = v.past;
        waiting = v.waiting;
        owned =
            stay-Owned v.owned i p (λ x q. sym same ∙ q) (fill s i node os topic_id bytes m t) refl
              refl refl (omega arith);
        loaded = write-Loaded v.loaded node l m t few_os load new_p other;
        told =
            stay-Told v.told i p (story (fill s i node os topic_id bytes m t) jobs') v.nodes
              v.waiting (sym (ap works e)) v.told.sent_is refl
              (map-update v.jobs node job v.nodes (v.owned.held i node (ap holds e)).not_queued
                ∙ v.told.queued)
              (at_node, few_os)
              (λ j x ne k. other_job v.owned v.jobs job i j node x ne (ap holds e) k)
              (λ pos k. refl);
        topics = v.topics;
        pooled = stay-Pooled v.pooled i p s.mailbox.message_pool refl (λ h. cc) tt;
      }

  pub push-Inv :
      (i failures node : ℕ) (l : Letter) (b : Mailbox FastMessage)
      → s.pc i ≡ pushing node l
      → enqueue cap s.mailbox node (outside s failures) ≡ some b
      → Inv cap (push s i l b)
  unfolding push
  push-Inv i failures node l b e h =
      let (ring, same, w) = enqueue_answer c node (outside s failures) b v.owned.ring h in
      let (job, few) : (v.jobs node ≡ some (l, length l.observers)) × (length l.observers ≤ 16) =
        subst (At (story s v.jobs)) e (v.told.threads i) in
      let full : Letter → Option (Letter × ℕ) = λ k. some (k, length k.observers) in
      record {
        free = v.free;
        nodes = v.nodes ++ node ∷ [];
        owner = v.owner;
        jobs = v.jobs;
        past = v.past;
        waiting = v.waiting ++ l ∷ [];
        owned = push-Owned v.owned i c failures node l b e h;
        loaded =
            subst (λ f. Loaded s.payloads f s.fresh v.jobs)
              (ap (λ (q : Mailbox FastMessage). q.messages) same) v.loaded;
        told =
            stay-Told v.told i idle (story (push s i l b) v.jobs) (v.nodes ++ node ∷ [])
              (v.waiting ++ l ∷ []) (sym (ap works e))
              (ap (λ ls. ls ++ l ∷ []) v.told.sent_is ∙ append_assoc v.past v.waiting (l ∷ [])) refl
              (map-append v.jobs v.nodes (node ∷ [])
                ∙ ap₂ (λ xs y. xs ++ y ∷ []) v.told.queued job
                ∙ sym (map-append full v.waiting (l ∷ [])))
              tt (λ j x ne k. refl) (λ pos k. refl);
        topics = v.topics;
        pooled =
            stay-Pooled v.pooled i idle b.message_pool
              (sym (ap (λ (q : Mailbox FastMessage). q.message_pool) same)) (λ h. cc) tt;
      }
