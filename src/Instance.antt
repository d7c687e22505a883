-- ===== src/Instance.antt =====
-- The static instance of a message centre, in src/messagecenter.cpp and src/messagecenter_fast.h, over
-- an interface of what it is an instance of: an object that is started, stopped and deleted.
use message_center_cpp.Common.{
  ℕ, ◌+◌, ◌≡◌, refl, Bool, true, false, Option, none, some, ◌>>=◌, List, [], ◌∷◌, arith,
  if◌then◌else◌,
}

-- An object of type `C` with a worker. `Is` says of a state whether the object runs. `none` is a wait
-- for a worker that goes on for ever.
pub record Service (C : Type 0) : Type 1 where
  pub construct : C
  pub start : C → C
  pub stop : C → Option C
  pub destroy : C → Option C
  pub Is : Bool → C → Type 0
  pub construct-Is : Is false construct
  pub start-Is : (runs : Bool) (c : C) → Is runs c → Is true (start c)
  pub stop-Is : (runs : Bool) (c : C) → Is runs c → (c' : C) × (stop c ≡ some c') × Is false c'
  pub destroy-Is : (c : C) → Is false c → destroy c ≡ some c

-- The static pointer, and how many objects were made and deleted.
pub record Statics (C : Type 0) : Type 0 where
  pub instance_ptr : Option C
  pub made : ℕ
  pub deleted : ℕ

-- What a program calls: the two static functions, and `Start` and `Stop` of the instance.
pub data Call : Type 0 where
  get : (autostart : Bool) → Call
  dispose : Call
  start_it : Call
  stop_it : Call

-- What the calls promise: whether there is an instance, and whether it runs.
abbrev pub promise : Call → Option Bool → Option Bool
promise (get autostart) none = some autostart
promise (get autostart) (some runs) = some runs
promise dispose o = none
promise start_it none = none
promise start_it (some runs) = some true
promise stop_it none = none
promise stop_it (some runs) = some false

abbrev pub promise_all : List Call → Option Bool → Option Bool
promise_all [] o = o
promise_all (call ∷ calls) o = promise_all calls (promise call o)

module _ {C : Type 0} (k : Service C) where
  -- `DefaultMessageCenter`
  unfoldable pub default_message_center : Bool → Statics C → Statics C
  default_message_center autostart s = elim s.instance_ptr [
    | some c ↦ s
    | none ↦ record s {
      instance_ptr = some (if autostart then k.start k.construct else k.construct);
      made = s.made + 1;
    }
  ]

  -- `DisposeDefaultMessageCenter`
  unfoldable pub dispose_default_message_center : Statics C → Option (Statics C)
  dispose_default_message_center s = elim s.instance_ptr [
    | none ↦ some s
    | some c ↦ do
      c' ← k.stop c
      c'' ← k.destroy c'
      some (record s { instance_ptr = none; deleted = s.deleted + 1 })
  ]

  unfoldable pub perform : Call → Statics C → Option (Statics C)
  perform (get autostart) s = some (default_message_center autostart s)
  perform dispose s = dispose_default_message_center s
  perform start_it s = elim s.instance_ptr [
    | none ↦ some s
    | some c ↦ some (record s { instance_ptr = some (k.start c) })
  ]
  perform stop_it s = elim s.instance_ptr [
    | none ↦ some s
    | some c ↦ do c' ← k.stop c; some (record s { instance_ptr = some c' })
  ]

  unfoldable pub perform_all : List Call → Statics C → Option (Statics C)
  perform_all [] s = some s
  perform_all (call ∷ calls) s = do s' ← perform call s; perform_all calls s'

  -- As many objects live as there are instances.
  abbrev pub Shows : Statics C → Option Bool → Type 0
  Shows s none = (s.instance_ptr ≡ none) × (s.made ≡ s.deleted)
  Shows s (some runs) = (c : C) × (s.instance_ptr ≡ some c) × (s.made ≡ s.deleted + 1) × k.Is runs c

abbrev pub at_first : {C : Type 0} → Statics C
at_first = record { instance_ptr = none; made = 0; deleted = 0 }

module _ {C : Type 0} (k : Service C) where
  perform-Shows :
      (call : Call) (s : Statics C) (o : Option Bool)
      → Shows k s o
      → (s' : Statics C) × (perform k call s ≡ some s') × Shows k s' (promise call o)
  unfolding perform default_message_center dispose_default_message_center
  perform-Shows (get autostart) s (some runs) (c, e, count, v) =
      (s, ground (arith, e), (c, e, count, v))
  perform-Shows (get true) s none (e, count) = (
    record s { instance_ptr = some (k.start k.construct); made = s.made + 1 },
    ground (arith, e),
    (k.start k.construct, refl, omega (arith, count), k.start-Is false k.construct k.construct-Is),
  )
  perform-Shows (get false) s none (e, count) = (
    record s { instance_ptr = some k.construct; made = s.made + 1 },
    ground (arith, e),
    (k.construct, refl, omega (arith, count), k.construct-Is),
  )
  perform-Shows dispose s none (e, count) = (s, ground (arith, e), (e, count))
  perform-Shows dispose s (some runs) (c, e, count, v) =
      let (c', went, w) = k.stop-Is runs c v in
      (
        record s { instance_ptr = none; deleted = s.deleted + 1 },
        ground (arith, e, went, k.destroy-Is c' w),
        (refl, omega (arith, count)),
      )
  perform-Shows start_it s none (e, count) = (s, ground (arith, e), (e, count))
  perform-Shows start_it s (some runs) (c, e, count, v) = (
    record s { instance_ptr = some (k.start c) },
    ground (arith, e),
    (k.start c, refl, count, k.start-Is runs c v),
  )
  perform-Shows stop_it s none (e, count) = (s, ground (arith, e), (e, count))
  perform-Shows stop_it s (some runs) (c, e, count, v) =
      let (c', went, w) = k.stop-Is runs c v in
      (record s { instance_ptr = some c' }, ground (arith, e, went), (c', refl, count, w))

  pub perform_all_lem :
      (calls : List Call) (s : Statics C) (o : Option Bool)
      → Shows k s o
      → (s' : Statics C) × (perform_all k calls s ≡ some s') × Shows k s' (promise_all calls o)
  unfolding perform_all
  perform_all_lem [] s o v = (s, refl, v)
  perform_all_lem (call ∷ calls) s o v =
      let (s1, went, w) = perform-Shows call s o v in
      let (s2, rest, u) = perform_all_lem calls s1 (promise call o) w in
      (s2, rw (went, rest) refl, u)
