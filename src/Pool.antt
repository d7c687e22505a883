-- ===== src/Pool.antt =====
-- src/objectpool.h: objects that are recycled. Every operation holds the pool's mutex and is one
-- step. An object is its address; what `new T()` returns is an argument.
pub mod Owners
use message_center_cpp.Common.{
  ℕ, ◌+◌, ◌-◌, ◌%◌, ◌^◌, Option, none, some, List, [], ◌∷◌, ◌++◌, length, ltb, ◌==◌, ◌||◌,
  if◌then◌else◌,
}

-- `pool` is the vector `m_pool`, its back first. `deleted` is a log of the deleted objects.
pub record Pool : Type 0 where
  pub pool : List ℕ
  pub max_size : ℕ
  pub allocated : ℕ
  pub deleted : List ℕ

-- The constructor: `fresh` lists what `new T()` returns, one object for each of `initialSize`.
unfoldable pub preallocate : Pool → List ℕ → Pool
preallocate p [] = p
preallocate p (x ∷ fresh) =
    preallocate (record p { pool = x ∷ p.pool; allocated = (p.allocated + 1) % 2 ^ 64 }) fresh

unfoldable pub construct : List ℕ → ℕ → Pool
construct fresh max_size =
    preallocate (record { pool = []; max_size = max_size; allocated = 0; deleted = [] }) fresh

take_back : Pool → ℕ → List ℕ → ℕ × Pool
take_back p fresh [] = (fresh, record p { allocated = (p.allocated + 1) % 2 ^ 64 })
take_back p fresh (x ∷ xs) = (x, record p { pool = xs })

-- `acquire`
unfoldable pub acquire : Pool → ℕ → ℕ × Pool
unfolding take_back
acquire p fresh = take_back p fresh p.pool

-- `release`; `m_allocated--` on a `size_t` wraps below 0.
unfoldable pub release : Pool → Option ℕ → Pool
release p none = p
release p (some obj) =
    if p.max_size == 0 || ltb (length p.pool) p.max_size
    then record p { pool = obj ∷ p.pool }
    else record p { deleted = obj ∷ p.deleted; allocated = (p.allocated + (2 ^ 64 - 1)) % 2 ^ 64 }

-- `size`, `allocated`
unfoldable pub size : Pool → ℕ
size p = length p.pool

-- `clear`
unfoldable pub clear : Pool → Pool
clear p = record p { pool = []; allocated = 0; deleted = p.pool ++ p.deleted }

-- `~ObjectPool`
unfoldable pub destroy : Pool → Pool
destroy p = record p { pool = []; deleted = p.pool ++ p.deleted }
