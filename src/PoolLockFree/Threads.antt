-- ===== src/PoolLockFree/Threads.antt =====
-- `pushFree` and `popFree` of src/objectpool_lockfree.h on any number of threads. A step is one access
-- to the head of the stack or to the `next` of a node.
pub mod Aba
use message_center_cpp.Common.{
  ℕ, ◌+◌, ◌≡◌, ◌≢◌, refl, Option, none, some, List, [], ◌∷◌, count, without, ◌==◌, if◌then◌else◌,
  ◌≤◌, arith,
}

-- Where a thread stands.
pub data Pc : Type 0 where
  idle : Pc
  -- in `popFree` with the head that it loaded, before it reads the `next` of it
  pop_read : (old_head : ℕ) → Pc
  -- before the compare-exchange, with the `next` that it read
  pop_claim : (old_head : ℕ) → (next : Option ℕ) → Pc
  -- in `pushFree` with the head that it loaded, before it writes the `next` of its node
  push_write : (node : ℕ) → (old_head : Option ℕ) → Pc
  -- before the compare-exchange
  push_claim : (node : ℕ) → (old_head : Option ℕ) → Pc

-- `in_use` has the nodes that `popFree` gave out and that are not given back.
pub record Stack : Type 0 where
  pub next : ℕ → Option ℕ
  pub free_list : Option ℕ
  pub in_use : List ℕ
  pub pc : ℕ → Pc

abbrev pub update : {A : Type 0} → (ℕ → A) → ℕ → A → ℕ → A
update f i v j = if i == j then v else f j

-- the store of `pushFree` to the `next` of its node
unfoldable pub link : Stack → ℕ → ℕ → Option ℕ → Stack
link s i node old_head = record s {
  next = update s.next node old_head;
  pc = update s.pc i (push_claim node old_head);
}

-- the successful compare-exchange of `pushFree`
unfoldable pub put : Stack → ℕ → ℕ → Stack
put s i node = record s { free_list = some node; pc = update s.pc i idle }

-- the successful compare-exchange of `popFree`
unfoldable pub claim : Stack → ℕ → ℕ → Option ℕ → Stack
claim s i old_head next = record s {
  free_list = next;
  in_use = old_head ∷ s.in_use;
  pc = update s.pc i idle;
}

-- A step of thread `i`. The client of `pushFree` gives the node back with the call.
pub data Step (s : Stack) : Stack → Type 0 where
  load_pop :
      (i old_head : ℕ)
      → s.pc i ≡ idle
      → s.free_list ≡ some old_head
      → Step s (record s { pc = update s.pc i (pop_read old_head) })
  read :
      (i old_head : ℕ)
      → s.pc i ≡ pop_read old_head
      → Step s (record s { pc = update s.pc i (pop_claim old_head (s.next old_head)) })
  take :
      (i old_head : ℕ) (next : Option ℕ)
      → s.pc i ≡ pop_claim old_head next
      → s.free_list ≡ some old_head
      → Step s (claim s i old_head next)
  miss_pop :
      (i old_head head : ℕ) (next : Option ℕ)
      → s.pc i ≡ pop_claim old_head next
      → s.free_list ≡ some head
      → Step s (record s { pc = update s.pc i (pop_read head) })
  miss_empty :
      (i old_head : ℕ) (next : Option ℕ)
      → s.pc i ≡ pop_claim old_head next
      → s.free_list ≡ none
      → Step s (record s { pc = update s.pc i idle })
  load_push :
      (i node : ℕ)
      → s.pc i ≡ idle
      → 1 ≤ count node s.in_use
      → Step s (record s {
        in_use = without node s.in_use;
        pc = update s.pc i (push_write node s.free_list);
      })
  write :
      (i node : ℕ) (old_head : Option ℕ)
      → s.pc i ≡ push_write node old_head
      → Step s (link s i node old_head)
  give :
      (i node : ℕ) (old_head : Option ℕ)
      → s.pc i ≡ push_claim node old_head
      → s.free_list ≡ old_head
      → Step s (put s i node)
  miss_push :
      (i node : ℕ) (old_head : Option ℕ)
      → s.pc i ≡ push_claim node old_head
      → Step s (record s { pc = update s.pc i (push_write node s.free_list) })

-- Any number of steps.
pub data Steps (s : Stack) : Stack → Type 0 where
  here : Steps s s
  later : {t u : Stack} → Steps s t → Step t u → Steps s u
