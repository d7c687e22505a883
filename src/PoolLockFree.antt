-- ===== src/PoolLockFree.antt =====
-- src/objectpool_lockfree.h: recycled nodes on a Treiber stack. The functions of this file are one
-- thread's run while no other thread moves the head of the stack; the weak compare-exchange of a
-- loop fails `spurious` times for no reason, and `oldHead` is then loaded again.
pub mod Owners
pub mod Threads
use message_center_cpp.Common.{
  ℕ, zero, suc, ◌+◌, ◌-◌, ◌%◌, ◌^◌, Bool, Option, none, some, List, [], ◌∷◌, ltb, ◌==◌, ◌&&◌,
  if◌then◌else◌,
}

-- `next` is the member of each node, and a node is its address, which is also that of its object.
-- `deleted` is a log.
pub record Pool : Type 0 where
  pub next : ℕ → Option ℕ
  pub free_list : Option ℕ
  pub allocated : ℕ
  pub max_size : ℕ
  pub deleted : List ℕ

abbrev pub update : (ℕ → Option ℕ) → ℕ → Option ℕ → ℕ → Option ℕ
update f i v j = if i == j then v else f j

-- the loop of `pushFree` from a loaded head
unfoldable pub push_loop : ℕ → Pool → ℕ → Option ℕ → Pool
push_loop zero p node old_head = record p {
  next = update p.next node old_head;
  free_list = some node;
}
push_loop (suc n) p node old_head =
    push_loop n (record p { next = update p.next node old_head }) node p.free_list

unfoldable pub push_free : ℕ → Pool → ℕ → Pool
push_free spurious p node = push_loop spurious p node p.free_list

-- the loop of `popFree` from a loaded head
unfoldable pub pop_loop : ℕ → Pool → Option ℕ → Option ℕ × Pool
pop_loop n p none = (none, p)
pop_loop zero p (some old_head) = (some old_head, record p { free_list = p.next old_head })
pop_loop (suc n) p (some old_head) = pop_loop n p p.free_list

unfoldable pub pop_free : ℕ → Pool → Option ℕ × Pool
pop_free spurious p = pop_loop spurious p p.free_list

-- The constructor; `fresh` lists what `new Node()` returns, once for each of `initialSize`.
unfoldable pub preallocate : Pool → List ℕ → Pool
preallocate p [] = p
preallocate p (x ∷ fresh) =
    let p' = push_free 0 p x in
    preallocate (record p' { allocated = (p'.allocated + 1) % 2 ^ 64 }) fresh

unfoldable pub construct : List ℕ → ℕ → Pool
construct fresh max_size =
    preallocate
      (record {
        next = λ _. none;
        free_list = none;
        allocated = 0;
        max_size = max_size;
        deleted = [];
      })
      fresh

or_new : ℕ → Option ℕ × Pool → ℕ × Pool
or_new fresh (some node, p) = (node, p)
or_new fresh (none, p) = (fresh, record p { allocated = (p.allocated + 1) % 2 ^ 64 })

-- `acquire`, with what `new Node()` would return
unfoldable pub acquire : ℕ → Pool → ℕ → ℕ × Pool
unfolding or_new
acquire spurious p fresh = or_new fresh (pop_free spurious p)

-- `release`
unfoldable pub release : ℕ → Pool → Option ℕ → Pool
release spurious p none = p
release spurious p (some obj) =
    if ltb 0 p.max_size && ltb p.max_size p.allocated
    then record p { deleted = obj ∷ p.deleted; allocated = (p.allocated + (2 ^ 64 - 1)) % 2 ^ 64 }
    else push_free spurious p obj
