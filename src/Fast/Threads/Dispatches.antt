-- ===== src/Fast/Threads/Dispatches.antt =====
-- The steps of `dispatchOne` in src/eventqueue_fast.h and the invariant of State.
use message_center_cpp.Common.{
  ℕ, suc, ◌≡◌, refl, sym, ap, subst, ◌∙◌, Option, some, List, [], ◌∷◌, ◌++◌, map, length, arith,
  append_assoc, some_inj, cons_head,
}
use message_center_cpp.Mpmc.Arith.{IsCapacity}
use message_center_cpp.Mpmc.Threads.Invariant.{update_cases}
use message_center_cpp.Payload.{Store}
use message_center_cpp.Mailbox.{Mailbox, update, receive}
use message_center_cpp.Mailbox.Queued.{map-update}
use message_center_cpp.Mailbox.Answers.{receive_answer}
use message_center_cpp.Message.{FastObserver, FastMessage, FastCall, data_of, release_one}
use message_center_cpp.Message.Letters.{Letter, call_of}
use message_center_cpp.Fast.Threads.{Pc, idle, calling, releasing, System, outside, pop, call}
use message_center_cpp.Fast.Threads.Loads.{Released, data_of-Load, release_one-Load}
use message_center_cpp.Fast.Threads.Nodes.{holds, stay-Owned}
use message_center_cpp.Fast.Threads.Pool.{stay-Pooled}
use message_center_cpp.Fast.Threads.Letters.{Jobs, Loaded, release-Loaded}
use message_center_cpp.Fast.Threads.Frame.{
  calls_at, works, Dispatches, At, calls_at-here, calls_at-elsewhere,
}
use message_center_cpp.Fast.Threads.Log.{stay-Told, pop-Told}
use message_center_cpp.Fast.Threads.Moves.{pop-Owned}
use message_center_cpp.Fast.Threads.State.{Inv, story, other_job}

-- The first node of the ring is for the first letter that waits.
first_letter :
    (jobs : Jobs) (node : ℕ) (nodes : List ℕ) (waiting : List Letter)
    → map jobs (node ∷ nodes) ≡ map (λ l. some (l, length l.observers)) waiting
    → (l : Letter) × (rest : List Letter) × (waiting ≡ l ∷ rest)
      × (jobs node ≡ some (l, length l.observers))
first_letter jobs node nodes [] e = ground (arith, e)
first_letter jobs node nodes (l ∷ rest) e = (l, rest, refl, cons_head e)

module _ {cap : ℕ} (c : IsCapacity cap) {s : System} (v : Inv cap s) where
  pub pop-Inv :
      (i failures node : ℕ) (b : Mailbox FastMessage)
      → s.pc i ≡ idle
      → receive cap s.mailbox (outside s failures) ≡ some (some node, b)
      → Inv cap (pop s i node b)
  unfolding pop
  pop-Inv i failures node b e h =
      let (nodes', split, own) = pop-Owned v.owned i c failures node b e h in
      let (nodes₀, ring, split₀, same, w) =
        receive_answer c node (outside s failures) b v.owned.ring h in
      let messages : s.mailbox.messages ≡ b.messages =
        ap (λ (q : Mailbox FastMessage). q.messages) same in
      let (l, rest, first, job) =
        first_letter v.jobs node nodes' v.waiting (ap (map v.jobs) (sym split) ∙ v.told.queued) in
      let load = v.loaded.loads node l (length l.observers) job in
      record {
        free = v.free;
        nodes = nodes';
        owner = _;
        jobs = v.jobs;
        past = v.past ++ l ∷ [];
        waiting = rest;
        owned = own;
        loaded = subst (λ f. Loaded s.payloads f s.fresh v.jobs) messages v.loaded;
        told =
            pop-Told v.told i node nodes' l rest (b.messages node).observers e split first
              (ap (λ (f : ℕ → FastMessage). (f node).observers) (sym messages) ∙ load.observers);
        topics = v.topics;
        pooled =
            stay-Pooled v.pooled i (calling node s.taken (b.messages node).observers) b.message_pool
              (sym (ap (λ (q : Mailbox FastMessage). q.message_pool) same)) (λ h. cc) tt;
      }

  pub call-Inv :
      (i node pos : ℕ) (o : FastObserver) (rest : List FastObserver) (bytes : List ℕ)
      → s.pc i ≡ calling node pos (o ∷ rest)
      → data_of (s.mailbox.messages node) s.payloads ≡ some bytes
      → Inv cap (call s i node pos o rest bytes)
  unfolding call
  call-Inv i node pos o rest bytes e h =
      let d : Dispatches (story s v.jobs) node pos (suc (length rest)) (o ∷ rest) =
        subst (At (story s v.jobs)) e (v.told.threads i) in
      let p : Pc = releasing node pos rest in
      let load = v.loaded.loads node d.letter (suc (length rest)) d.job in
      let what : bytes ≡ d.letter.bytes = some_inj (sym h ∙ data_of-Load load) in
      let t = call s i node pos o rest bytes in
      let made : FastCall = record {
        callback = o.callback;
        topic_id = (s.mailbox.messages node).topic_id;
        bytes = bytes;
        size = (s.mailbox.messages node).payload_size;
        user_data = o.user_data;
      } in
      let one_call : made ≡ call_of d.letter o = rw (what, load.topic, load.size) refl in
      record {
        free = v.free;
        nodes = v.nodes;
        owner = v.owner;
        jobs = v.jobs;
        past = v.past;
        waiting = v.waiting;
        owned = stay-Owned v.owned i p (λ x q. ap holds e ∙ q) t refl refl refl (omega arith);
        loaded = v.loaded;
        told =
            stay-Told v.told i p (story t v.jobs) v.nodes v.waiting (sym (ap works e))
              v.told.sent_is refl v.told.queued
              (record {
                letter = d.letter;
                job = d.job;
                popped = d.popped;
                was_sent = d.was_sent;
                so_far =
                    ap (λ cs. cs ++ map (call_of d.letter) rest) (calls_at-here pos made s.log)
                    ∙ append_assoc (calls_at pos s.log) (made ∷ []) (map (call_of d.letter) rest)
                    ∙ ap (λ k. calls_at pos s.log ++ k ∷ map (call_of d.letter) rest) one_call
                    ∙ d.so_far;
              })
              (λ j x ne k. refl)
              (λ q ne.
                calls_at-elsewhere pos q made s.log (λ same. ne (ap works e ∙ ap some same)));
        topics = v.topics;
        pooled = stay-Pooled v.pooled i p s.mailbox.message_pool refl (λ h. cc) tt;
      }

  pub release-Inv :
      (i node pos : ℕ) (rest : List FastObserver) (t : Store)
      → s.pc i ≡ releasing node pos rest
      → release_one (s.mailbox.messages node) s.payloads ≡ some t
      → Inv cap (record s { payloads = t; pc = update s.pc i (calling node pos rest) })
  release-Inv i node pos rest t e h =
      let d : Dispatches (story s v.jobs) node pos (suc (length rest)) rest =
        subst (At (story s v.jobs)) e (v.told.threads i) in
      let p : Pc = calling node pos rest in
      let load = v.loaded.loads node d.letter (suc (length rest)) d.job in
      let few = v.loaded.few node d.letter (suc (length rest)) d.job in
      let (t', h', left) = release_one-Load (length rest) load (omega (arith, few)) in
      let job : Option (Letter × ℕ) = some (d.letter, length rest) in
      let jobs' : Jobs = update v.jobs node job in
      let at_node : jobs' node ≡ job =
        update_cases (λ (q : Option (Letter × ℕ)). q ≡ job) v.jobs node job node (λ q. refl)
          (λ ne. absurd (ne refl)) in
      let u = record s { payloads = t; pc = update s.pc i p } in
      record {
        free = v.free;
        nodes = v.nodes;
        owner = v.owner;
        jobs = jobs';
        past = v.past;
        waiting = v.waiting;
        owned = stay-Owned v.owned i p (λ x q. ap holds e ∙ q) u refl refl refl (omega arith);
        loaded = release-Loaded v.loaded node d.letter (length rest) t d.job (
            subst (λ r. Released s.payloads (s.mailbox.messages node) d.letter (length rest) r)
              (some_inj (sym h' ∙ h)) left);
        told =
            stay-Told v.told i p (story u jobs') v.nodes v.waiting (sym (ap works e)) v.told.sent_is
              refl
              (map-update v.jobs node job v.nodes (v.owned.held i node (ap holds e)).not_queued
                ∙ v.told.queued)
              (record {
                letter = d.letter;
                job = at_node;
                popped = d.popped;
                was_sent = d.was_sent;
                so_far = d.so_far;
              })
              (λ j x ne k. other_job v.owned v.jobs job i j node x ne (ap holds e) k) (λ q k. refl);
        topics = v.topics;
        pooled = stay-Pooled v.pooled i p s.mailbox.message_pool refl (λ h. cc) tt;
      }
