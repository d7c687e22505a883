-- ===== src/MessageCenter/Instance.antt =====
-- The static instance of src/messagecenter.cpp, `Start`, `Stop` and the destructor, as one thread
-- calls them. A wait for a worker follows its loop in MessageCenter.
use message_center_cpp.Common.{
  ℕ, ◌≡◌, ◌≢◌, refl, sym, ap, subst, Bool, true, false, Option, none, some, ◌>>=◌, List, [], ◌∷◌,
  map, if◌then◌else◌, arith,
}
use message_center_cpp.EventQueue.Types.{Invocation}
use message_center_cpp.EventQueue.State.{EventQueue}
use message_center_cpp.EventQueue.Handlers.{Request, serve_all}
use message_center_cpp.MessageCenter.{work, thread_worker}
use message_center_cpp.Instance.{
  Service, Statics, Call, perform_all, promise_all, Shows, at_first, perform_all_lem,
}
use message_center_cpp.MessageCenter.Lifecycle.{
  Center, running, leaving, finished, update, construct, spawn, joined,
}

-- `Start`
unfoldable pub start : Center → Center
start c = if c.started then c else spawn c

-- A worker of a centre whose queue is `queue c`, and what other threads ask of the queue in the rounds
-- that the worker makes while a thread waits for its end; only that thread would write to
-- `m_requestStop`.
module _ (handler : Invocation → EventQueue → EventQueue) (queue : Center → EventQueue)
    (meanwhile : Center → List (List Request)) where
  -- whether `ThreadWorker` comes to its end in these rounds
  unfoldable pub ends : Center → Bool
  ends c =
      (thread_worker handler
        (map (λ rs. record { requests = rs; request_stop = c.request_stop }) (meanwhile c))
        (queue c)).0

  -- The wait for the end of worker `w`; `none` where it has not ended in these rounds.
  unfoldable pub wait_for : ℕ → Center → Option Center
  wait_for w c = elim (c.workers w) [
    | running ↦
        if ends c
        then some (record c { stopped = true; workers = update c.workers w finished })
        else none
    | leaving ↦ some (record c { stopped = true; workers = update c.workers w finished })
    | finished ↦ some c
  ]

  -- `Stop`
  unfoldable pub stop : Center → Option Center
  stop c = if c.stopped then some c else (elim c.thread [
    | none ↦ some (joined (record c { request_stop = true }))
    | some w ↦ do c' ← wait_for w (record c { request_stop = true }); some (joined c')
  ])

  -- `~MessageCenter`
  unfoldable pub destroy : Center → Option Center
  destroy c = elim c.thread [ none ↦ some c | some w ↦ wait_for w c ]

-- A centre that runs has one worker, the last that was made; one that does not has none.
abbrev pub Is : Bool → Center → Type 0
Is true c =
    (w : ℕ) × (c.started ≡ true)
    × (c.stopped ≡ false)
    × (c.thread ≡ some w)
    × (c.workers w ≡ running)
    × ((v : ℕ) → v ≢ w → c.workers v ≡ finished)
Is false c =
    (c.started ≡ false)
    × (c.stopped ≡ true)
    × (c.thread ≡ none)
    × ((v : ℕ) → c.workers v ≡ finished)

pub construct-Is : Is false construct
unfolding construct
construct-Is = (refl, refl, refl, λ v. refl)

pub start-Is : (runs : Bool) (c : Center) → Is runs c → Is true (start c)
unfolding start spawn
start-Is true c (w, started, stopped, thread, at_w, others) =
    subst (Is true) (sym (ap (λ b. if b then c else spawn c) started))
      (w, started, stopped, thread, at_w, others)
start-Is false c (started, stopped, thread, all) =
    subst (Is true) (sym (ap (λ b. if b then c else spawn c) started))
      (c.spawned, refl, refl, refl, ground arith, λ v ne. ground (arith, all v))

-- A worker ends in its next round where it is asked to, and in no round where it is not.
thread_worker-asked :
    (handler : Invocation → EventQueue → EventQueue) (rs : List Request) (rss : List (List Request))
    (q : EventQueue) (asked : Bool)
    → asked ≡ true
    → (thread_worker handler
        (map (λ rs. record { requests = rs; request_stop = asked }) (rs ∷ rss))
        q).0
      ≡ true
unfolding thread_worker
thread_worker-asked handler rs rss q asked e = rw e refl

thread_worker-unasked :
    (handler : Invocation → EventQueue → EventQueue) (rss : List (List Request)) (q : EventQueue)
    (asked : Bool)
    → asked ≡ false
    → (thread_worker handler (map (λ rs. record { requests = rs; request_stop = asked }) rss) q).0
      ≡ false
unfolding thread_worker
thread_worker-unasked handler [] q asked e = refl
thread_worker-unasked handler (rs ∷ rss) q asked e =
    let rest = thread_worker-unasked handler rss (work handler (serve_all rs q)) asked e in
    ground (arith, e, rest)

-- The worker makes a round at least while a thread waits.
module _ (handler : Invocation → EventQueue → EventQueue) (queue : Center → EventQueue)
    (first : Center → List Request) (more : Center → List (List Request)) where
  abbrev pub some_rounds : Center → List (List Request)
  some_rounds c = first c ∷ more c

  wait_for_lem :
      (w : ℕ) (c : Center)
      → c.workers w ≡ running
      → c.request_stop ≡ true
      → wait_for handler queue some_rounds w c
        ≡ some (record c { stopped = true; workers = update c.workers w finished })
  unfolding wait_for ends
  wait_for_lem w c e f =
      ground (arith, e, thread_worker-asked handler (first c) (more c) (queue c) c.request_stop f)

  pub stop-Is :
      (runs : Bool) (c : Center)
      → Is runs c
      → (c' : Center) × (stop handler queue some_rounds c ≡ some c') × Is false c'
  unfolding stop joined
  stop-Is true c (w, started, stopped, thread, at_w, others) =
      let c1 : Center = record c { request_stop = true } in
      let c2 : Center = record c1 { stopped = true; workers = update c.workers w finished } in
      (
        joined c2,
        ground (arith, stopped, thread, wait_for_lem w c1 at_w refl),
        (refl, refl, refl, λ v. ground (arith, others v)),
      )
  stop-Is false c (started, stopped, thread, all) =
      (c, ground (arith, stopped), (started, stopped, thread, all))

  pub destroy-Is : (c : Center) → Is false c → destroy handler queue some_rounds c ≡ some c
  unfolding destroy
  destroy-Is c (started, stopped, thread, all) = ground (arith, thread)

  abbrev pub service : Service Center
  service = record {
    construct = construct;
    start = start;
    stop = stop handler queue some_rounds;
    destroy = destroy handler queue some_rounds;
    Is = Is;
    construct-Is = construct-Is;
    start-Is = start-Is;
    stop-Is = stop-Is;
    destroy-Is = destroy-Is;
  }

  -- From the start of the program, every sequence of calls of `DefaultMessageCenter`,
  -- `DisposeDefaultMessageCenter`, and `Start` and `Stop` of the instance by one thread comes to its
  -- end, if a worker makes a round at least while the thread waits for it, whatever other threads post
  -- meanwhile. There is then an instance just where the first two promise one, it is the only object
  -- that lives, and it has one worker where it was started last, and none where it was stopped last
  -- or never started.
  pub instance_refines :
      (calls : List Call)
      → (s : Statics Center) × (perform_all service calls at_first ≡ some s)
        × Shows service s (promise_all calls none)
  instance_refines calls = perform_all_lem service calls at_first none (refl, refl)

-- The destructor of a centre that has been started, and not stopped since, waits for ever for its
-- worker: however many rounds the loop of the worker makes, and whatever other threads and the handlers
-- do to the queue meanwhile, it has not ended, and the destructor has not returned.
pub destroy_waits :
    (handler : Invocation → EventQueue → EventQueue) (queue : Center → EventQueue)
    (meanwhile : Center → List (List Request)) (c : Center)
    → Is false c
    → destroy handler queue meanwhile (start c) ≡ none
unfolding destroy start spawn wait_for ends
destroy_waits handler queue meanwhile c (started, stopped, thread, all) = ground (
  arith,
  started,
  thread_worker-unasked handler (meanwhile (spawn c)) (queue (spawn c)) false refl,
)
