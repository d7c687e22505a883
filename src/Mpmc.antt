-- ===== src/Mpmc.antt =====
-- src/mpmc_queue.h: the bounded ring with a sequence number in each slot.
-- `size_t` wraps at 2 ^ 64, with the wrap written out. The memory orders of the atomics are not
-- modelled: the functions of this file are one thread's run while no other thread moves the
-- counters, and a weak compare-exchange may still fail for no reason.
pub mod Arith
pub mod Fifo
pub mod Invariant
pub mod Refine
pub mod One
pub mod Threads
use Prim.Native.Nat.{bit_and}
use message_center_cpp.Common.{
  ℕ, zero, suc, ◌+◌, ◌-◌, ◌%◌, ◌^◌, Bool, true, false, Option, none, some, ltb, leb, ◌==◌,
  if◌then◌else◌, ◌≡◌, ◌≢◌, arith,
}
use message_center_cpp.Common.Int.{ℤ, pos, negsuc}

-- `size_t` arithmetic is modulo this.
abbrev pub word : ℕ
word = 2 ^ 64

-- `static_cast<intptr_t>` of a word
abbrev pub intptr : ℕ → ℤ
intptr w = if ltb w (2 ^ 63) then pos w else negsuc (word - w - 1)

-- `static_cast<intptr_t>(seq) - static_cast<intptr_t>(pos)`, in two's complement
abbrev pub diff : ℕ → ℕ → ℤ
diff seq at = intptr ((seq + word - at) % word)

pub record Slot (A : Type 0) : Type 0 where
  pub seq : ℕ
  pub item : A

-- The members of `MPMCQueue`. `slots` is the array `m_slots`; only indices below the capacity
-- are used.
pub record Ring (A : Type 0) : Type 0 where
  pub slots : ℕ → Slot A
  pub head : ℕ
  pub tail : ℕ

abbrev pub update : {A : Type 0} → (ℕ → A) → ℕ → A → ℕ → A
update f i v j = if i == j then v else f j

pub update_self : {A : Type 0} (f : ℕ → A) (i : ℕ) (v : A) → update f i v i ≡ v
update_self f i v = ground arith

pub update_ne : {A : Type 0} (f : ℕ → A) (i j : ℕ) (v : A) → i ≢ j → update f i v j ≡ f j
update_ne f i j v h = ground arith

-- `pos & MASK`
unfoldable pub index : ℕ → ℕ → ℕ
index cap at = bit_and at (cap - 1)

-- What the `diff` of a round tells it to do.
pub data Verdict : Type 0 where
  claim give_up reload : Verdict

unfoldable pub verdict : ℤ → Verdict
verdict (pos zero) = Verdict.claim
verdict (pos (suc n)) = Verdict.reload
verdict (negsuc n) = Verdict.give_up

-- The constructor. `garbage` is what the uninitialised `data` members hold.
unfoldable pub init : {A : Type 0} → A → Ring A
init garbage = record { slots = λ i. record { seq = i; item = garbage }; head = 0; tail = 0 }

module _ {A : Type 0} (cap : ℕ) where
  -- The two stores after a claim of position `at`.
  unfoldable pub fill : Ring A → ℕ → A → Ring A
  fill r at x = record r {
    slots = update r.slots (index cap at) (record { seq = (at + 1) % word; item = x });
    tail = (at + 1) % word;
  }

  unfoldable pub vacate : Ring A → ℕ → Ring A
  vacate r at = record r {
    slots =
        update r.slots (index cap at)
          (record { seq = (at + cap) % word; item = (r.slots (index cap at)).item });
    head = (at + 1) % word;
  }

  -- The loop of `try_push` from a loaded `tail`. The weak compare-exchange fails `spurious` times
  -- for no reason, and then only if the counter has moved; `none` means that the loop goes on.
  unfoldable pub push_loop : ℕ → Ring A → A → ℕ → Option (Bool × Ring A)
  push_loop zero r x tail = elim (verdict (diff (r.slots (index cap tail)).seq tail)) [
    | Verdict.claim ↦ if r.tail == tail then some (true, fill r tail x) else none
    | Verdict.give_up ↦ some (false, r)
    | Verdict.reload ↦ none
  ]
  push_loop (suc n) r x tail =
      let again = push_loop n r x r.tail in
      elim (verdict (diff (r.slots (index cap tail)).seq tail)) [
        | Verdict.claim ↦ again
        | Verdict.give_up ↦ some (false, r)
        | Verdict.reload ↦ again
      ]

  unfoldable pub try_push : ℕ → Ring A → A → Option (Bool × Ring A)
  try_push spurious r x = push_loop spurious r x r.tail

  -- The loop of `try_pop` from a loaded `head`. The second result is what `item` holds at the end.
  unfoldable pub pop_loop : ℕ → Ring A → A → ℕ → Option (Bool × A × Ring A)
  pop_loop zero r out head =
      elim (verdict (diff (r.slots (index cap head)).seq ((head + 1) % word))) [
        | Verdict.claim ↦
            if r.head == head
            then some (true, (r.slots (index cap head)).item, vacate r head)
            else none
        | Verdict.give_up ↦ some (false, out, r)
        | Verdict.reload ↦ none
      ]
  pop_loop (suc n) r out head =
      let again = pop_loop n r out r.head in
      elim (verdict (diff (r.slots (index cap head)).seq ((head + 1) % word))) [
        | Verdict.claim ↦ again
        | Verdict.give_up ↦ some (false, out, r)
        | Verdict.reload ↦ again
      ]

  unfoldable pub try_pop : ℕ → Ring A → A → Option (Bool × A × Ring A)
  try_pop spurious r out = pop_loop spurious r out r.head

unfoldable pub size_approx : {A : Type 0} → Ring A → ℕ
size_approx r = if leb r.head r.tail then r.tail - r.head else 0

unfoldable pub empty : {A : Type 0} → Ring A → Bool
empty r = size_approx r == 0
