-- ===== src/CenterFast/Instance.antt =====
-- The static instance of src/messagecenter_fast.h, `start`, `stop` and the destructor, as one thread
-- calls them. A dispatch thread that is asked to stop comes to its end.
use message_center_cpp.Common.{
  ℕ, ◌≡◌, ◌≢◌, refl, sym, ap, subst, Bool, true, false, Option, none, some, ◌>>=◌, if◌then◌else◌,
  arith,
}
use message_center_cpp.Mailbox.{update}
use message_center_cpp.Instance
use message_center_cpp.Instance.{Service, Statics}
use message_center_cpp.CenterFast.Lifecycle.{Threads, construct, create}

-- `start`
unfoldable pub start : Threads → Threads
start c = if c.running then c else create (record c { stopping_flag = false; running = true })

-- The wait for the end of dispatch thread `w`; `none` where it goes on for ever, as no one asks the
-- thread to stop.
unfoldable pub wait_for : ℕ → Threads → Option Threads
wait_for w c =
    if c.workers w
    then if c.stopping_flag then some (record c { workers = update c.workers w false }) else none
    else some c

-- `stop`
unfoldable pub stop : Threads → Option Threads
stop c =
    if c.running
    then (elim c.thread [
      | none ↦ some (record c { stopping_flag = true; running = false })
      | some w ↦ do
        c' ← wait_for w (record c { stopping_flag = true })
        some (record c' { thread = none; running = false })
    ])
    else some c

-- `~MessageCenterFast`
unfoldable pub destroy : Threads → Option Threads
destroy c = stop c

-- A centre that runs has one dispatch thread; one that does not has none.
abbrev pub Is : Bool → Threads → Type 0
Is true c =
    (w : ℕ) × (c.running ≡ true)
    × (c.thread ≡ some w)
    × (c.workers w ≡ true)
    × ((v : ℕ) → v ≢ w → c.workers v ≡ false)
Is false c = (c.running ≡ false) × (c.thread ≡ none) × ((v : ℕ) → c.workers v ≡ false)

pub construct-Is : Is false construct
unfolding construct
construct-Is = (refl, refl, λ v. refl)

pub start-Is : (runs : Bool) (c : Threads) → Is runs c → Is true (start c)
unfolding start create
start-Is true c (w, running, thread, at_w, others) =
    subst (Is true)
      (sym (
        ap (λ b. if b then c else create (record c { stopping_flag = false; running = true }))
          running))
      (w, running, thread, at_w, others)
start-Is false c (running, thread, all) =
    subst (Is true)
      (sym (
        ap (λ b. if b then c else create (record c { stopping_flag = false; running = true }))
          running))
      (c.created, refl, refl, ground arith, λ v ne. ground (arith, all v))

wait_for_lem :
    (w : ℕ) (c : Threads)
    → c.workers w ≡ true
    → c.stopping_flag ≡ true
    → wait_for w c ≡ some (record c { workers = update c.workers w false })
unfolding wait_for
wait_for_lem w c e f = ground (arith, e, f)

pub stop-Is :
    (runs : Bool) (c : Threads) → Is runs c → (c' : Threads) × (stop c ≡ some c') × Is false c'
unfolding stop
stop-Is true c (w, running, thread, at_w, others) =
    let c1 : Threads = record c { stopping_flag = true } in
    let c2 : Threads = record c1 { workers = update c.workers w false } in
    (
      record c2 { thread = none; running = false },
      ground (arith, running, thread, wait_for_lem w c1 at_w refl),
      (refl, refl, λ v. ground (arith, others v)),
    )
stop-Is false c (running, thread, all) = (c, ground (arith, running), (running, thread, all))

pub destroy-Is : (c : Threads) → Is false c → destroy c ≡ some c
unfolding destroy stop
destroy-Is c (running, thread, all) = ground (arith, running)

abbrev pub service : Service Threads
service = record {
  construct = construct;
  start = start;
  stop = stop;
  destroy = destroy;
  Is = Is;
  construct-Is = construct-Is;
  start-Is = start-Is;
  stop-Is = stop-Is;
  destroy-Is = destroy-Is;
}

-- `DefaultMessageCenter`
unfoldable pub default_message_center : Bool → Statics Threads → Statics Threads
default_message_center = Instance.default_message_center service

-- `DisposeDefaultMessageCenter`
unfoldable pub dispose_default_message_center : Statics Threads → Option (Statics Threads)
dispose_default_message_center = Instance.dispose_default_message_center service
