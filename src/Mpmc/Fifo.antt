-- ===== src/Mpmc/Fifo.antt =====
-- What src/mpmc_queue.h promises to one thread at a time: a FIFO of at most `cap` items.
use message_center_cpp.Common.{
  ℕ, Bool, true, false, List, [], ◌∷◌, ◌++◌, length, ltb, if◌then◌else◌,
}

pub data Op (A : Type 0) : Type 0 where
  put : A → Op A
  get : Op A

module _ {A : Type 0} (cap : ℕ) where
  unfoldable pub push : List A → A → Bool × List A
  push xs x = if ltb (length xs) cap then (true, xs ++ x ∷ []) else (false, xs)

unfoldable pub pop : {A : Type 0} → List A → A → Bool × A × List A
pop [] out = (false, out, [])
pop (x ∷ xs) out = (true, x, xs)

module _ {A : Type 0} (cap : ℕ) where
  -- The replies to a client's calls: the result of each, and what `item` holds after it.
  unfoldable pub run : List A → A → List (ℕ × Op A) → List (Bool × A)
  run xs out [] = []
  run xs out ((_, put x) ∷ ops) = let (b, ys) = push cap xs x in (b, out) ∷ run ys out ops
  run xs out ((_, get) ∷ ops) = let (b, y, ys) = pop xs out in (b, y) ∷ run ys y ops
