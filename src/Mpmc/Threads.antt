-- ===== src/Mpmc/Threads.antt =====
-- src/mpmc_queue.h with any number of threads in any interleaving. A step is one access to an atomic
-- or to the data of a slot; the memory orders are taken as sequential consistency.
pub mod Invariant
pub mod Moves
pub mod Claims
pub mod Stores
pub mod Releases
pub mod Safety
use message_center_cpp.Common.{ℕ, ◌+◌, ◌%◌, ◌≡◌, List, [], ◌∷◌, ◌++◌}
use message_center_cpp.Mpmc.{word, Slot, index, Verdict, verdict, diff, update}

-- Where a thread stands: in `try_push` of an item or in `try_pop`, with the counter that it has
-- loaded.
pub data Pc (A : Type 0) : Type 0 where
  -- between two calls
  idle : Pc A
  -- before a load of `m_tail`
  push_load : A → Pc A
  -- before the load of the slot's number
  push_check : A → (tail : ℕ) → Pc A
  -- before the compare-exchange
  push_claim : A → (tail : ℕ) → Pc A
  -- before the store of the item, and then of the slot's number
  push_write : A → (tail : ℕ) → Pc A
  push_publish : A → (tail : ℕ) → Pc A
  pop_load : Pc A
  pop_check : (head : ℕ) → Pc A
  pop_claim : (head : ℕ) → Pc A
  -- before the load of the item, and then the store of the slot's number
  pop_read : (head : ℕ) → Pc A
  pop_release : (head : ℕ) → A → Pc A

-- `slots`, `head` and `tail` are the members of the queue. The rest is read by no code: how many
-- positions have been claimed at either end, the item of each position, and what `try_pop` has
-- handed out for it.
pub record System (A : Type 0) : Type 0 where
  pub slots : ℕ → Slot A
  pub head : ℕ
  pub tail : ℕ
  pub pc : ℕ → Pc A
  pub pushes : ℕ
  pub pops : ℕ
  pub sent : ℕ → A
  pub delivered : ℕ → List A

module _ {A : Type 0} (cap : ℕ) where
  abbrev pub slot_of : System A → ℕ → Slot A
  slot_of s at = s.slots (index cap at)

  abbrev pub push_verdict : System A → ℕ → Verdict
  push_verdict s tail = verdict (diff (slot_of s tail).seq tail)

  abbrev pub pop_verdict : System A → ℕ → Verdict
  pop_verdict s head = verdict (diff (slot_of s head).seq ((head + 1) % word))

  abbrev pub moved : System A → ℕ → Pc A → System A
  moved s i p = record s { pc = update s.pc i p }

  -- the successful compare-exchange of `try_push`
  unfoldable pub claim_tail : System A → ℕ → A → ℕ → System A
  claim_tail s i x tail = record s {
    tail = (tail + 1) % word;
    pc = update s.pc i (push_write x tail);
    pushes = s.pushes + 1;
    sent = update s.sent s.pushes x;
  }

  -- `slot.data = item`
  unfoldable pub write_item : System A → ℕ → A → ℕ → System A
  write_item s i x tail = record s {
    slots = update s.slots (index cap tail) (record { seq = (slot_of s tail).seq; item = x });
    pc = update s.pc i (push_publish x tail);
  }

  -- `slot.seq.store(tail + 1)`
  unfoldable pub publish : System A → ℕ → ℕ → System A
  publish s i tail = record s {
    slots =
        update s.slots (index cap tail)
          (record { seq = (tail + 1) % word; item = (slot_of s tail).item });
    pc = update s.pc i idle;
  }

  -- the successful compare-exchange of `try_pop`
  unfoldable pub claim_head : System A → ℕ → ℕ → System A
  claim_head s i head = record s {
    head = (head + 1) % word;
    pc = update s.pc i (pop_read head);
    pops = s.pops + 1;
  }

  -- `slot.seq.store(head + Capacity)`, with which the item is handed out
  unfoldable pub release : System A → ℕ → ℕ → A → System A
  release s i head x = record s {
    slots =
        update s.slots (index cap head)
          (record { seq = (head + cap) % word; item = (slot_of s head).item });
    pc = update s.pc i idle;
    delivered = update s.delivered head (s.delivered head ++ x ∷ []);
  }

  -- A step of thread `i`. A weak compare-exchange may fail at any time, and loads the counter.
  pub data Step (s : System A) : System A → Type 0 where
    call_push : (i : ℕ) (x : A) → s.pc i ≡ idle → Step s (moved s i (push_load x))
    load_tail : (i : ℕ) (x : A) → s.pc i ≡ push_load x → Step s (moved s i (push_check x s.tail))
    check_push :
        (i : ℕ) (x : A) (tail : ℕ)
        → s.pc i ≡ push_check x tail
        → push_verdict s tail ≡ Verdict.claim
        → Step s (moved s i (push_claim x tail))
    full :
        (i : ℕ) (x : A) (tail : ℕ)
        → s.pc i ≡ push_check x tail
        → push_verdict s tail ≡ Verdict.give_up
        → Step s (moved s i idle)
    reload_push :
        (i : ℕ) (x : A) (tail : ℕ)
        → s.pc i ≡ push_check x tail
        → push_verdict s tail ≡ Verdict.reload
        → Step s (moved s i (push_load x))
    take_tail :
        (i : ℕ) (x : A) (tail : ℕ)
        → s.pc i ≡ push_claim x tail
        → s.tail ≡ tail
        → Step s (claim_tail s i x tail)
    miss_tail :
        (i : ℕ) (x : A) (tail : ℕ)
        → s.pc i ≡ push_claim x tail
        → Step s (moved s i (push_check x s.tail))
    write : (i : ℕ) (x : A) (tail : ℕ) → s.pc i ≡ push_write x tail → Step s (write_item s i x tail)
    store_push :
        (i : ℕ) (x : A) (tail : ℕ) → s.pc i ≡ push_publish x tail → Step s (publish s i tail)
    call_pop : (i : ℕ) → s.pc i ≡ idle → Step s (moved s i pop_load)
    load_head : (i : ℕ) → s.pc i ≡ pop_load → Step s (moved s i (pop_check s.head))
    check_pop :
        (i head : ℕ)
        → s.pc i ≡ pop_check head
        → pop_verdict s head ≡ Verdict.claim
        → Step s (moved s i (pop_claim head))
    empty :
        (i head : ℕ)
        → s.pc i ≡ pop_check head
        → pop_verdict s head ≡ Verdict.give_up
        → Step s (moved s i idle)
    reload_pop :
        (i head : ℕ)
        → s.pc i ≡ pop_check head
        → pop_verdict s head ≡ Verdict.reload
        → Step s (moved s i pop_load)
    take_head :
        (i head : ℕ) → s.pc i ≡ pop_claim head → s.head ≡ head → Step s (claim_head s i head)
    miss_head : (i head : ℕ) → s.pc i ≡ pop_claim head → Step s (moved s i (pop_check s.head))
    read :
        (i head : ℕ)
        → s.pc i ≡ pop_read head
        → Step s (moved s i (pop_release head (slot_of s head).item))
    store_pop :
        (i : ℕ) (head : ℕ) (x : A) → s.pc i ≡ pop_release head x → Step s (release s i head x)

  -- The constructor; `garbage` is what the uninitialised data members hold.
  unfoldable pub start : A → System A
  start garbage = record {
    slots = λ i. record { seq = i; item = garbage };
    head = 0;
    tail = 0;
    pc = λ _. idle;
    pushes = 0;
    pops = 0;
    sent = λ _. garbage;
    delivered = λ _. [];
  }

  pub data Reach (garbage : A) : System A → Type 0 where
    here : Reach garbage (start garbage)
    next : {s t : System A} → Reach garbage s → Step s t → Reach garbage t
