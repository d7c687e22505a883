-- ===== src/Mailbox.antt =====
-- What the queues of src/eventqueue_fast.h, src/eventqueue_batch.h and src/eventqueue_emulator.h do
-- with their members `m_queue` and `m_messagePool`: a message is written to a node of the pool,
-- the node goes through the ring, and after the dispatch back to the pool.
pub mod Queued
pub mod Answers
pub mod View
use message_center_cpp.Common.{
  ℕ, Bool, true, false, Option, none, some, ◌>>=◌, List, ◌==◌, if◌then◌else◌,
}
use message_center_cpp.Mpmc
use message_center_cpp.Mpmc.{Ring}
use message_center_cpp.PoolLockFree

abbrev pub update : {A : Type 0} → (ℕ → A) → ℕ → A → ℕ → A
update f i v j = if i == j then v else f j

-- `messages` is what the nodes hold.
pub record Mailbox (M : Type 0) : Type 0 where
  pub queue : Ring (Option ℕ)
  pub message_pool : PoolLockFree.Pool
  pub messages : ℕ → M

-- What the outside decides in a call: how often a weak compare-exchange of the pool or of the ring
-- fails for no reason, and the addresses that `new` returns.
pub record Outside : Type 0 where
  pub pool_failures : ℕ
  pub ring_failures : ℕ
  pub node : ℕ
  pub payload : ℕ

module _ {M : Type 0} where
  -- `m_messagePool.acquire()`
  unfoldable pub reserve : Mailbox M → Outside → ℕ × Mailbox M
  reserve b out =
      let (node, pool) = PoolLockFree.acquire out.pool_failures b.message_pool out.node in
      (node, record b { message_pool = pool })

  -- the message is written to its node
  unfoldable pub write : Mailbox M → ℕ → M → Mailbox M
  write b node m = record b { messages = update b.messages node m }

  module _ (cap : ℕ) where
    -- `while (!m_queue.try_push(msg))`; `none` where the loop goes on until a consumer has made
    -- room
    unfoldable pub enqueue : Mailbox M → ℕ → Outside → Option (Mailbox M)
    enqueue b node out = do
      (pushed, ring) ← Mpmc.try_push cap out.ring_failures b.queue (some node)
      if pushed then some (record b { queue = ring }) else none

    -- `m_queue.try_pop(msg)` into a null pointer: what `msg` is afterwards where the call succeeds,
    -- and null where it does not
    unfoldable pub receive : Mailbox M → Outside → Option (Option ℕ × Mailbox M)
    receive b out = do
      (popped, node, ring) ← Mpmc.try_pop cap out.ring_failures b.queue none
      some (if popped then node else none, record b { queue = ring })

  -- `m_messagePool.release(msg)`
  unfoldable pub recycle : Mailbox M → ℕ → Outside → Mailbox M
  recycle b node out = record b {
    message_pool = PoolLockFree.release out.pool_failures b.message_pool (some node);
  }
