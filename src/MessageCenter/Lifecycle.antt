-- ===== src/MessageCenter/Lifecycle.antt =====
-- `Start`, `Stop` and the end of `ThreadWorker` of src/messagecenter.cpp, for any number of client
-- threads and in any interleaving. A step is one load or store of an atomic, or what one thread
-- does while it holds `m_mutexThreads` without waiting.
pub mod Workers
use message_center_cpp.Common.{
  ℕ, ◌+◌, ◌<◌, ◌≡◌, Bool, true, false, Option, none, some, ◌==◌, if◌then◌else◌,
}

-- Where a client stands.
pub data Client : Type 0 where
  outside : Client
  -- in `Start` after the test of `m_started`, before the lock
  starting : Client
  -- in `Stop` after the test of `m_stopped`, before the lock
  stopping : Client
  -- in `Stop` with the lock, at the join
  joining : Client

-- Where a worker stands: in the loop, after the loop, at its end.
pub data Worker : Type 0 where
  running leaving finished : Worker

-- The members of `MessageCenter`; workers are numbered as they are created, and `thread` is
-- `m_thread`. `locked` says that a thread waits with `m_mutexThreads` held.
pub record Center : Type 0 where
  pub thread : Option ℕ
  pub started : Bool
  pub request_stop : Bool
  pub stopped : Bool
  pub locked : Bool
  pub spawned : ℕ
  pub workers : ℕ → Worker
  pub clients : ℕ → Client

abbrev pub update : {A : Type 0} → (ℕ → A) → ℕ → A → ℕ → A
update f i v j = if i == j then v else f j

-- `MessageCenter()`
unfoldable pub construct : Center
construct = record {
  thread = none;
  started = false;
  request_stop = false;
  stopped = true;
  locked = false;
  spawned = 0;
  workers = λ _. finished;
  clients = λ _. outside;
}

-- the body of `Start` under the lock
unfoldable pub spawn : Center → Center
spawn c = record c {
  request_stop = false;
  stopped = false;
  thread = some c.spawned;
  workers = update c.workers c.spawned running;
  spawned = c.spawned + 1;
  started = true;
}

-- the end of `Stop` after the join
unfoldable pub joined : Center → Center
joined c = record c { thread = none; started = false; locked = false }

-- A step of client `i` of `n`, or of a worker.
pub data Step (n : ℕ) (c : Center) : Center → Type 0 where
  check_start :
      (i : ℕ)
      → i < n
      → c.clients i ≡ outside
      → c.started ≡ false
      → Step n c (record c { clients = update c.clients i starting })
  start :
      (i : ℕ)
      → i < n
      → c.clients i ≡ starting
      → c.locked ≡ false
      → Step n c (spawn (record c { clients = update c.clients i outside }))
  check_stop :
      (i : ℕ)
      → i < n
      → c.clients i ≡ outside
      → c.stopped ≡ false
      → Step n c (record c { clients = update c.clients i stopping })
  request :
      (i : ℕ)
      → i < n
      → c.clients i ≡ stopping
      → c.locked ≡ false
      → Step n c
          (record c { request_stop = true; locked = true; clients = update c.clients i joining })
  join :
      (i w : ℕ)
      → i < n
      → c.clients i ≡ joining
      → c.thread ≡ some w
      → c.workers w ≡ finished
      → Step n c (joined (record c { clients = update c.clients i outside }))
  join_none :
      (i : ℕ)
      → i < n
      → c.clients i ≡ joining
      → c.thread ≡ none
      → Step n c (joined (record c { clients = update c.clients i outside }))
  leave :
      (w : ℕ)
      → w < c.spawned
      → c.workers w ≡ running
      → c.request_stop ≡ true
      → Step n c (record c { workers = update c.workers w leaving })
  finish :
      (w : ℕ)
      → w < c.spawned
      → c.workers w ≡ leaving
      → Step n c (record c { stopped = true; workers = update c.workers w finished })

pub data Reach (n : ℕ) : Center → Type 0 where
  here : Reach n construct
  next : {c d : Center} → Reach n c → Step n c d → Reach n d
