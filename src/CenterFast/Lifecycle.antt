-- ===== src/CenterFast/Lifecycle.antt =====
-- `start`, `stop` and the dispatch thread of src/messagecenter_fast.h, for any number of client
-- threads and in any interleaving. A step is one access to an atomic or to `m_dispatchThread`; there is
-- no lock.
pub mod Alone
use message_center_cpp.Common.{
  ℕ, ◌+◌, ◌<◌, ◌≤◌, ◌≡◌, ◌≢◌, refl, sym, ap, subst, ◌∙◌, ◌⊎◌, inl, inr, Bool, true, false, Option,
  none, some, ◌==◌, if◌then◌else◌, arith, ℕ_discrete,
}
use message_center_cpp.Mailbox.{update}

-- Where a client stands: outside, in `start` before each of its two stores and before the creation
-- of the thread, in `stop` before its store, at the join, and before its last store.
pub data Client : Type 0 where
  outside starting clearing creating stopping joining leaving : Client

-- `workers` says which dispatch threads run; they are numbered as they are created, and `thread` is
-- `m_dispatchThread`.
pub record Threads : Type 0 where
  pub running : Bool
  pub stopping_flag : Bool
  pub thread : Option ℕ
  pub created : ℕ
  pub workers : ℕ → Bool
  pub clients : ℕ → Client

unfoldable pub construct : Threads
construct = record {
  running = false;
  stopping_flag = false;
  thread = none;
  created = 0;
  workers = λ _. false;
  clients = λ _. outside;
}

-- client `i` goes on to `at`
abbrev pub goes : Threads → ℕ → Client → Threads
goes c i at = record c { clients = update c.clients i at }

-- `new std::thread`
unfoldable pub create : Threads → Threads
create c = record c {
  thread = some c.created;
  workers = update c.workers c.created true;
  created = c.created + 1;
}

-- A step of client `i` of `n`, or the end of a dispatch thread.
pub data Step (n : ℕ) (c : Threads) : Threads → Type 0 where
  check_start :
      (i : ℕ) → i < n → c.clients i ≡ outside → c.running ≡ false → Step n c (goes c i starting)
  clear :
      (i : ℕ)
      → i < n
      → c.clients i ≡ starting
      → Step n c (goes (record c { stopping_flag = false }) i clearing)
  set :
      (i : ℕ)
      → i < n
      → c.clients i ≡ clearing
      → Step n c (goes (record c { running = true }) i creating)
  spawn : (i : ℕ) → i < n → c.clients i ≡ creating → Step n c (goes (create c) i outside)
  check_stop :
      (i : ℕ) → i < n → c.clients i ≡ outside → c.running ≡ true → Step n c (goes c i stopping)
  request :
      (i : ℕ)
      → i < n
      → c.clients i ≡ stopping
      → Step n c (goes (record c { stopping_flag = true }) i joining)
  join :
      (i w : ℕ)
      → i < n
      → c.clients i ≡ joining
      → c.thread ≡ some w
      → c.workers w ≡ false
      → Step n c (goes (record c { thread = none }) i leaving)
  join_none :
      (i : ℕ) → i < n → c.clients i ≡ joining → c.thread ≡ none → Step n c (goes c i leaving)
  leave :
      (i : ℕ)
      → i < n
      → c.clients i ≡ leaving
      → Step n c (goes (record c { running = false }) i outside)
  finish :
      (w : ℕ)
      → c.workers w ≡ true
      → c.stopping_flag ≡ true
      → Step n c (record c { workers = update c.workers w false })

pub data Reach (n : ℕ) : Threads → Type 0 where
  here : Reach n construct
  next : {c d : Threads} → Reach n c → Step n c d → Reach n d
