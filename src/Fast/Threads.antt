-- ===== src/Fast/Threads.antt =====
-- src/eventqueue_fast.h: `addObserver`, `post` and `dispatchOne` on any number of threads, with
-- `acquire` and `release` of src/objectpool_lockfree.h. A step is an access of these two to the head of
-- the stack, to the `next` of a node or to the counter, a call of the ring or of a payload, or what a
-- thread does with a node that it holds.
--
-- The runs are those in which no two threads are in `popFree` at once, as where one thread posts, and
-- in which no `addObserver` runs beside another or beside a `post` that has yet to call `try_push`, so
-- that its load and its stores are one step, and the observers are copied from what `post` saw. Nothing
-- else is kept apart: a `popFree` meets any number of `pushFree`, and dispatches meet each other and
-- the posts.
pub mod Pool
pub mod Gains
pub mod Returns
pub mod Loads
pub mod Nodes
pub mod Moves
pub mod Letters
pub mod Frame
pub mod Log
pub mod State
pub mod Posts
pub mod Dispatches
pub mod Safety
pub mod Delivery
use message_center_cpp.Common.{
  ℕ, zero, suc, ◌+◌, ◌-◌, ◌%◌, ◌^◌, ◌<◌, ◌≤◌, ◌≡◌, ◌≢◌, Bool, true, false, Option, none, some, List,
  [], ◌∷◌, ◌++◌, length, count, ltb, ◌&&◌,
}
use message_center_cpp.Mpmc
use message_center_cpp.PoolLockFree
use message_center_cpp.PoolLockFree.Owners.{Chain}
use message_center_cpp.Payload.{Store}
use message_center_cpp.Mailbox.{Mailbox, Outside, update, write, enqueue, receive}
use message_center_cpp.Message.{FastObserver, FastMessage, FastCall, compose, data_of, release_one}
use message_center_cpp.Message.Letters.{Letter, bytes_at}
use message_center_cpp.Fast.{max_topics, max_observers}

-- Where a thread stands. `pos` says how many messages were popped before the one that the thread
-- dispatches; no code reads it.
pub data Pc : Type 0 where
  idle : Pc
  -- in `popFree`, called by `post` with the observers of the topic, with the head that it loaded
  popping :
      (os : List FastObserver)
      → (topic_id : ℕ) → (bytes : Option (List ℕ)) → (old_head : Option ℕ) → Pc
  -- before the compare-exchange of `popFree`, with the `next` that it read
  claiming :
      (os : List FastObserver)
      → (topic_id : ℕ) → (bytes : Option (List ℕ)) → (old_head : ℕ) → (new_head : Option ℕ) → Pc
  -- in `post` with a node of the pool and the snapshot of the observers
  filling : (node : ℕ) → (os : List FastObserver) → (topic_id : ℕ) → (bytes : Option (List ℕ)) → Pc
  -- in the loop of `post` around `try_push`, with the letter that was written to the node
  pushing : (node : ℕ) → (l : Letter) → Pc
  -- in the loop of `dispatchOne`, before the next call
  calling : (node pos : ℕ) → (rest : List FastObserver) → Pc
  -- after a call, before the release
  releasing : (node pos : ℕ) → (rest : List FastObserver) → Pc
  -- in `release`, which deletes the node
  deleting : (node : ℕ) → Pc
  -- in `release`, which goes on to `pushFree`
  returning : (node : ℕ) → Pc
  -- in `pushFree` with the head that it loaded, before it writes the `next` of its node
  linking : (node : ℕ) → (old_head : Option ℕ) → Pc
  -- before the compare-exchange of `pushFree`
  swinging : (node : ℕ) → (old_head : Option ℕ) → Pc

-- whether a thread is in `popFree`
abbrev pub pops : Pc → Bool
pops (popping os topic_id bytes old_head) = true
pops (claiming os topic_id bytes old_head new_head) = true
pops _ = false

-- whether a thread is in `post` and has yet to read the topic's observers, or reads them
abbrev pub reads_topic : Pc → Bool
reads_topic (filling node os topic_id bytes) = true
reads_topic p = pops p

-- The members, with what the nodes of the pool hold and the payloads. Nodes and payloads are numbered
-- as they are made, and `fresh` is the next number. The rest is read by no code: the letters in the
-- order of their pushes, how many of them were popped, and the calls with the `pos` of their message.
pub record System : Type 0 where
  pub mailbox : Mailbox FastMessage
  pub payloads : Store
  pub topics : ℕ → List FastObserver
  pub pc : ℕ → Pc
  pub fresh : ℕ
  pub sent : List Letter
  pub taken : ℕ
  pub log : List (ℕ × FastCall)

-- what the outside decides in a call, where `new` makes the next object
abbrev pub outside : System → ℕ → Outside
outside s failures = record {
  pool_failures = failures;
  ring_failures = failures;
  node = s.fresh;
  payload = s.fresh;
}

-- the members with another pool
abbrev pub with_pool : System → PoolLockFree.Pool → Mailbox FastMessage
with_pool s pool = record s.mailbox { message_pool = pool }

-- Thread `i` loads the head of the stack in `popFree`.
unfoldable pub load_free : System → ℕ → List FastObserver → ℕ → Option (List ℕ) → System
load_free s i os topic_id bytes = record s {
  pc = update s.pc i (popping os topic_id bytes s.mailbox.message_pool.free_list);
}

-- Thread `i` reads the `next` of the head that it loaded.
unfoldable pub read_next : System → ℕ → List FastObserver → ℕ → Option (List ℕ) → ℕ → System
read_next s i os topic_id bytes old_head = record s {
  pc = update s.pc i (claiming os topic_id bytes old_head (s.mailbox.message_pool.next old_head));
}

-- `acquire` returns the node.
unfoldable pub gain :
    System → ℕ → ℕ → PoolLockFree.Pool → List FastObserver → ℕ → Option (List ℕ) → System
gain s i node pool os topic_id bytes = record s {
  mailbox = with_pool s pool;
  fresh = s.fresh + 1;
  pc = update s.pc i (filling node os topic_id bytes);
}

-- the pool after a compare-exchange of `popFree`
unfoldable pub popped_pool : System → Option ℕ → PoolLockFree.Pool
popped_pool s new_head = record s.mailbox.message_pool { free_list = new_head }

-- the pool after `new Node()` and the increment of `m_allocated`
unfoldable pub grown_pool : System → PoolLockFree.Pool
grown_pool s = record s.mailbox.message_pool {
  allocated = (s.mailbox.message_pool.allocated + 1) % 2 ^ 64;
}

-- the message `m` is written to the node, and the payloads are those of `t`
unfoldable pub fill :
    System → ℕ → ℕ → List FastObserver → ℕ → Option (List ℕ) → FastMessage → Store → System
fill s i node os topic_id bytes m t = record s {
  mailbox = write s.mailbox node m;
  payloads = t;
  fresh = s.fresh + 1;
  pc =
      update s.pc i
        (pushing node (record { topic_id = topic_id; bytes = bytes_at bytes; observers = os }));
}

-- a `try_push` that succeeds
unfoldable pub push : System → ℕ → Letter → Mailbox FastMessage → System
push s i l b = record s { mailbox = b; sent = s.sent ++ l ∷ []; pc = update s.pc i idle }

-- a `try_pop` that succeeds
unfoldable pub pop : System → ℕ → ℕ → Mailbox FastMessage → System
pop s i node b = record s {
  mailbox = b;
  taken = s.taken + 1;
  pc = update s.pc i (calling node s.taken (b.messages node).observers);
}

-- the call of an observer with some bytes
unfoldable pub call : System → ℕ → ℕ → ℕ → FastObserver → List FastObserver → List ℕ → System
call s i node pos o rest bytes =
    let m = s.mailbox.messages node in
    record s {
      log =
          s.log
          ++ (
            pos,
            record {
              callback = o.callback;
              topic_id = m.topic_id;
              bytes = bytes;
              size = m.payload_size;
              user_data = o.user_data;
            },
          )
            ∷ [];
      pc = update s.pc i (releasing node pos rest);
    }

-- The test of `release`: `m_maxSize > 0 && allocated > m_maxSize`.
unfoldable pub too_many : System → Bool
too_many s = let p = s.mailbox.message_pool in ltb 0 p.max_size && ltb p.max_size p.allocated

-- Thread `i` goes on in `release`.
unfoldable pub go_on : System → ℕ → Pc → System
go_on s i p = record s { pc = update s.pc i p }

-- The node is deleted and `m_allocated` counted down.
unfoldable pub drop : System → ℕ → ℕ → System
drop s i node =
    let p = s.mailbox.message_pool in
    record s {
      mailbox = with_pool s (record p {
        deleted = node ∷ p.deleted;
        allocated = (p.allocated + (2 ^ 64 - 1)) % 2 ^ 64;
      });
      pc = update s.pc i idle;
    }

-- `node->next = oldHead`
unfoldable pub link : System → ℕ → ℕ → Option ℕ → System
link s i node old_head =
    let p = s.mailbox.message_pool in
    record s {
      mailbox = with_pool s (record p { next = update p.next node old_head });
      pc = update s.pc i (swinging node old_head);
    }

-- a compare-exchange of `pushFree` that succeeds
unfoldable pub put : System → ℕ → ℕ → System
put s i node = record s {
  mailbox = with_pool s (record s.mailbox.message_pool { free_list = some node });
  pc = update s.pc i idle;
}

-- A step of thread `i`. A call reads the payload, so there is none after the payload is freed, and no
-- release either.
pub data Step (cap : ℕ) (s : System) : System → Type 0 where
  add_observer :
      (topic_id : ℕ) (o : FastObserver)
      → topic_id < max_topics
      → length (s.topics topic_id) < max_observers
      → ((j : ℕ) → reads_topic (s.pc j) ≡ false)
      → Step cap s (record s { topics = update s.topics topic_id (s.topics topic_id ++ o ∷ []) })
  begin :
      (i topic_id : ℕ) (bytes : Option (List ℕ))
      → s.pc i ≡ idle
      → topic_id < max_topics
      → 0 < length (s.topics topic_id)
      → ((j : ℕ) → pops (s.pc j) ≡ false)
      → Step cap s (load_free s i (s.topics topic_id) topic_id bytes)
  read :
      (i : ℕ) (os : List FastObserver) (topic_id : ℕ) (bytes : Option (List ℕ)) (old_head : ℕ)
      → s.pc i ≡ popping os topic_id bytes (some old_head)
      → Step cap s (read_next s i os topic_id bytes old_head)
  claimed :
      (i : ℕ) (os : List FastObserver) (topic_id : ℕ) (bytes : Option (List ℕ)) (old_head : ℕ)
      (new_head : Option ℕ)
      → s.pc i ≡ claiming os topic_id bytes old_head new_head
      → s.mailbox.message_pool.free_list ≡ some old_head
      → Step cap s (gain s i old_head (popped_pool s new_head) os topic_id bytes)
  -- the head has changed, or the weak compare-exchange fails for no reason
  missed :
      (i : ℕ) (os : List FastObserver) (topic_id : ℕ) (bytes : Option (List ℕ)) (old_head : ℕ)
      (new_head : Option ℕ)
      → s.pc i ≡ claiming os topic_id bytes old_head new_head
      → Step cap s (load_free s i os topic_id bytes)
  made :
      (i : ℕ) (os : List FastObserver) (topic_id : ℕ) (bytes : Option (List ℕ))
      → s.pc i ≡ popping os topic_id bytes none
      → Step cap s (gain s i s.fresh (grown_pool s) os topic_id bytes)
  written :
      (i node : ℕ) (os : List FastObserver) (topic_id : ℕ) (bytes : Option (List ℕ))
      (m : FastMessage) (t : Store)
      → s.pc i ≡ filling node os topic_id bytes
      → compose s.payloads os topic_id bytes
          (length (bytes_at bytes))
          s.fresh
          (s.mailbox.messages node)
        ≡ some (m, t)
      → Step cap s (fill s i node os topic_id bytes m t)
  pushed :
      (i failures node : ℕ) (l : Letter) (b : Mailbox FastMessage)
      → s.pc i ≡ pushing node l
      → enqueue cap s.mailbox node (outside s failures) ≡ some b
      → Step cap s (push s i l b)
  popped :
      (i failures node : ℕ) (b : Mailbox FastMessage)
      → s.pc i ≡ idle
      → receive cap s.mailbox (outside s failures) ≡ some (some node, b)
      → Step cap s (pop s i node b)
  called :
      (i node pos : ℕ) (o : FastObserver) (rest : List FastObserver) (bytes : List ℕ)
      → s.pc i ≡ calling node pos (o ∷ rest)
      → data_of (s.mailbox.messages node) s.payloads ≡ some bytes
      → Step cap s (call s i node pos o rest bytes)
  released :
      (i node pos : ℕ) (rest : List FastObserver) (t : Store)
      → s.pc i ≡ releasing node pos rest
      → release_one (s.mailbox.messages node) s.payloads ≡ some t
      → Step cap s (record s { payloads = t; pc = update s.pc i (calling node pos rest) })
  kept :
      (i node pos : ℕ)
      → s.pc i ≡ calling node pos []
      → too_many s ≡ false
      → Step cap s (go_on s i (returning node))
  refused :
      (i node pos : ℕ)
      → s.pc i ≡ calling node pos []
      → too_many s ≡ true
      → Step cap s (go_on s i (deleting node))
  dropped : (i node : ℕ) → s.pc i ≡ deleting node → Step cap s (drop s i node)
  loaded :
      (i node : ℕ)
      → s.pc i ≡ returning node
      → Step cap s (go_on s i (linking node s.mailbox.message_pool.free_list))
  linked :
      (i node : ℕ) (old_head : Option ℕ)
      → s.pc i ≡ linking node old_head
      → Step cap s (link s i node old_head)
  put_back :
      (i node : ℕ) (old_head : Option ℕ)
      → s.pc i ≡ swinging node old_head
      → s.mailbox.message_pool.free_list ≡ old_head
      → Step cap s (put s i node)
  -- the head has changed, or the weak compare-exchange fails for no reason
  overtaken :
      (i node : ℕ) (old_head : Option ℕ)
      → s.pc i ≡ swinging node old_head
      → Step cap s (go_on s i (linking node s.mailbox.message_pool.free_list))

-- A queue before any call: the nodes that the constructor put into the pool are `free`.
pub record Begins (cap : ℕ) (s : System) (free : List ℕ) : Type 0 where
  pub ring : s.mailbox.queue ≡ Mpmc.init none
  pub pool : Chain s.mailbox.message_pool.next s.mailbox.message_pool.free_list free
  pub alone : (x : ℕ) → count x free ≤ 1
  pub known : (x : ℕ) → s.fresh ≤ x → count x free ≡ 0
  pub no_payload : (p : ℕ) → s.payloads p ≡ none
  pub no_observer : (t : ℕ) → s.topics t ≡ []
  pub all_idle : (i : ℕ) → s.pc i ≡ idle
  pub nothing_sent : s.sent ≡ []
  pub nothing_taken : s.taken ≡ 0
  pub no_call : s.log ≡ []

pub data Reach (cap : ℕ) : System → Type 0 where
  here : {s : System} (free : List ℕ) → Begins cap s free → Reach cap s
  next : {s t : System} → Reach cap s → Step cap s t → Reach cap t
