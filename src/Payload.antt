-- ===== src/Payload.antt =====
-- src/payload_refcounted.h: payloads with a reference count in a store, and the guard that holds one
-- reference. `none` as the result of an operation is a use of a payload that has been freed.
pub mod Lifetime
use message_center_cpp.Common.{
  ℕ, zero, suc, ◌+◌, ◌-◌, ◌%◌, ◌^◌, Option, none, some, ◌>>=◌, List, length, ◌==◌, if◌then◌else◌,
}

-- The members of `RefCountedPayload`. `m_refCount` is an `int`, which wraps at 2 ^ 32 as an atomic.
pub record Payload : Type 0 where
  pub ref_count : ℕ
  pub size : ℕ
  pub bytes : List ℕ

-- The live payloads by address.
abbrev pub Store : Type 0
Store = ℕ → Option Payload

abbrev pub update : Store → ℕ → Option Payload → Store
update s p v q = if p == q then v else s q

-- `create(data, size)`, with the address that `operator new` returns
unfoldable pub create : Store → ℕ → List ℕ → Store
create s addr bytes =
    update s addr (some (record { ref_count = 1; size = length bytes; bytes = bytes }))

-- `addRefs`, and `addRef` for 1
unfoldable pub add_refs : Store → ℕ → ℕ → Option Store
add_refs s p count = do
  payload ← s p
  some (update s p (some (record payload { ref_count = (payload.ref_count + count) % 2 ^ 32 })))

unfoldable pub add_ref : Store → ℕ → Option Store
add_ref s p = add_refs s p 1

-- `release`
unfoldable pub release : Store → ℕ → Option Store
release s p = do
  payload ← s p
  if payload.ref_count == 1
      then some (update s p none)
      else some (
          update s p
            (some (record payload { ref_count = (payload.ref_count + (2 ^ 32 - 1)) % 2 ^ 32 })))

-- A number of releases of one payload.
unfoldable pub releases : ℕ → Store → ℕ → Option Store
releases zero s p = some s
releases (suc n) s p = do s' ← release s p; releases n s' p

-- `PayloadGuard`: its member, and null after a move or a release.
abbrev pub Guard : Type 0
Guard = Option ℕ

-- the move constructor: the new guard, and the old one
unfoldable pub guard_move : Guard → Guard × Guard
guard_move g = (g, none)

-- `PayloadGuard::release`: the pointer, and the guard
unfoldable pub guard_release : Guard → Option ℕ × Guard
guard_release g = (g, none)

-- `~PayloadGuard`
unfoldable pub guard_destroy : Guard → Store → Option Store
guard_destroy none s = some s
guard_destroy (some p) s = release s p
