-- ===== src/EventQueue/Removal.antt =====
-- The protocol of src/eventqueue.cpp between `Dispatch` and the removals, for any number of
-- threads in any interleaving: the snapshot under `m_mutexObservers`, the counter under
-- `m_mutexDispatches`, and the wait at the end of a removal. An observer is its ID, and a topic's
-- vector is the list of the IDs in it.
pub mod Threads
pub mod Invariant
pub mod Moves
pub mod Erase
pub mod Safety
use message_center_cpp.Common.{
  ℕ, ◌+◌, ◌-◌, ◌<◌, ◌≡◌, ◌≢◌, Bool, List, [], ◌∷◌, ◌++◌, All, ◌==◌, if◌then◌else◌,
}

-- Where a thread stands.
pub data Pc : Type 0 where
  -- outside of any dispatch, between two calls
  idle : Pc
  -- in the loop of `Dispatch`: the IDs of the snapshot that are still to be called, the first of
  -- which may be running
  invoking : (snapshot : List ℕ) → Pc
  -- in a removal after the erase, at the head of `WaitForDispatchesToComplete`, with the IDs that the
  -- removal was to take off their topic
  waiting : (observer_ids : List ℕ) → Pc

-- `home` is the topic that an ID was registered for, and `returned` lists the IDs whose removal
-- from this topic has returned to a caller outside of any dispatch; no code reads the two.
pub record System : Type 0 where
  pub observers : ℕ → List ℕ
  pub next_observer_id : ℕ
  pub active_dispatches : ℕ
  pub pc : ℕ → Pc
  pub home : ℕ → ℕ
  pub returned : List ℕ

abbrev pub update : {A : Type 0} → (ℕ → A) → ℕ → A → ℕ → A
update f i v j = if i == j then v else f j

-- The loop of `RemoveObserverById`: the first match goes.
unfoldable pub erase_id : ℕ → List ℕ → List ℕ
erase_id x [] = []
erase_id x (y ∷ ys) = if y == x then ys else y ∷ erase_id x ys

-- The loop of the two functions `RemoveObserver`: every match goes.
unfoldable pub erase_matching : (ℕ → Bool) → List ℕ → List ℕ
erase_matching matches [] = []
erase_matching matches (y ∷ ys) =
    let rest = erase_matching matches ys in if matches y then rest else y ∷ rest

-- the IDs that this loop erases
unfoldable pub matched : (ℕ → Bool) → List ℕ → List ℕ
matched matches [] = []
matched matches (y ∷ ys) = let rest = matched matches ys in if matches y then y ∷ rest else rest

-- A step of thread `i`. The ID of an `add` is fetched and pushed in one step, since no client
-- knows the ID before `AddObserver` returns it. The name that a removal is given may come to any topic,
-- or to none: a client may name the wrong one, and `ClearTopics` forgets them all.
pub data Step (n : ℕ) (s : System) : System → Type 0 where
  -- `AddObserver`, from outside or from a handler
  add :
      (topic : ℕ)
      → Step n s (record s {
        observers = update s.observers topic (s.observers topic ++ s.next_observer_id ∷ []);
        next_observer_id = s.next_observer_id + 1;
        home = update s.home s.next_observer_id topic;
      })
  -- the snapshot of `Dispatch`, with `MarkDispatchActive` under the same mutex
  begin :
      (i topic : ℕ)
      → i < n
      → s.pc i ≡ idle
      → Step n s (record s {
        active_dispatches = s.active_dispatches + 1;
        pc = update s.pc i (invoking (s.observers topic));
      })
  -- a handler returns
  call :
      (i x : ℕ) (xs : List ℕ)
      → i < n
      → s.pc i ≡ invoking (x ∷ xs)
      → Step n s (record s { pc = update s.pc i (invoking xs) })
  -- `MarkDispatchComplete`
  finish :
      (i : ℕ)
      → i < n
      → s.pc i ≡ invoking []
      → Step n s (record s { active_dispatches = s.active_dispatches - 1; pc = update s.pc i idle })
  -- the erase of a removal by ID from outside of any dispatch, in the topic of the ID; for the ID 0 the
  -- removal returns at once, which changes nothing
  remove :
      (i x : ℕ)
      → i < n
      → s.pc i ≡ idle
      → 0 < x
      → x < s.next_observer_id
      → Step n s (record s {
        observers = update s.observers (s.home x) (erase_id x (s.observers (s.home x)));
        pc = update s.pc i (waiting (x ∷ []));
      })
  -- the same in another topic
  remove_elsewhere :
      (i x topic : ℕ)
      → i < n
      → s.pc i ≡ idle
      → 0 < x
      → s.home x ≢ topic
      → Step n s (record s {
        observers = update s.observers topic (erase_id x (s.observers topic));
        pc = update s.pc i (waiting []);
      })
  -- any removal from outside of any dispatch, where the name is of no topic, or the topic has no
  -- vector
  remove_unresolved :
      (i : ℕ) → i < n → s.pc i ≡ idle → Step n s (record s { pc = update s.pc i (waiting []) })
  -- the erase of a removal by callback, or by instance and method, from outside of any dispatch
  remove_matching :
      (i topic : ℕ) (matches : ℕ → Bool)
      → i < n
      → s.pc i ≡ idle
      → Step n s (record s {
        observers = update s.observers topic (erase_matching matches (s.observers topic));
        pc = update s.pc i (waiting (matched matches (s.observers topic)));
      })
  -- the wait ends: `m_activeDispatches == 0`
  return :
      (i : ℕ) (xs : List ℕ)
      → i < n
      → s.pc i ≡ waiting xs
      → s.active_dispatches ≡ 0
      → Step n s (record s { pc = update s.pc i idle; returned = xs ++ s.returned })
  -- a removal from a handler, which does not wait
  remove_inside :
      (i x topic : ℕ) (snapshot : List ℕ)
      → i < n
      → s.pc i ≡ invoking snapshot
      → Step n s
          (record s { observers = update s.observers topic (erase_id x (s.observers topic)) })
  remove_matching_inside :
      (i topic : ℕ) (matches : ℕ → Bool) (snapshot : List ℕ)
      → i < n
      → s.pc i ≡ invoking snapshot
      → Step n s (record s {
        observers = update s.observers topic (erase_matching matches (s.observers topic));
      })

abbrev pub start : System
start = record {
  observers = λ _. [];
  next_observer_id = 1;
  active_dispatches = 0;
  pc = λ _. idle;
  home = λ _. 0;
  returned = [];
}

pub data Reach (n : ℕ) : System → Type 0 where
  here : Reach n start
  next : {s t : System} → Reach n s → Step n s t → Reach n t
