-- ===== src/EventQueue/Observers/Laws.antt =====
-- What `AddObserver` and `RemoveObserver` of src/eventqueue.cpp do to the vectors of all topics.
use Prim.Native.String.{String}
use message_center_cpp.Common.{
  ℕ, ◌+◌, ◌%◌, ◌^◌, ◌<◌, ◌≡◌, refl, Bool, true, false, Option, List, [], ◌∷◌, ◌++◌, arith, ◌==◌,
  Bool-cases, Option-cases, inl, inr, if◌then◌else◌, ◌⊎◌,
}
use message_center_cpp.Common.Int.{ℤ, is_neg, int_beq, int_beq_iff}
use message_center_cpp.Common.Maps.{lookup, lookup-insert, int_eq}
use message_center_cpp.EventQueue.Topics
use message_center_cpp.EventQueue.Topics.Invariant.{register-IsValid}
use message_center_cpp.EventQueue.Topics.Lookup.{register-resolve}
use message_center_cpp.EventQueue.Types.{ObserverDescriptor}
use message_center_cpp.EventQueue.State.{EventQueue, get_observers, init}
use message_center_cpp.EventQueue.Observers.{
  or_empty, add_observer, erase_all, erase_first, replace_observers, has_callback, has_method,
  has_id, remove_callback, remove_method, remove_by_id,
}
use message_center_cpp.EventQueue.Observers.Lists.{
  Unique, Below, erase_all-All, erase_all-Unique, erase_first-eq-erase_all, fresh_last, Below-suc,
  Below-ne, erase_first_last,
}

-- The observers of a topic; an absent vector is as good as an empty one.
abbrev pub observers : EventQueue → ℤ → List ObserverDescriptor
observers q id = or_empty (get_observers q id)

-- The registry is in order, and in each topic the IDs are unique and have been given out.
pub record IsValid (q : EventQueue) : Type 0 where
  pub registry : Topics.Invariant.IsValid q.registry
  pub started : 0 < q.next_observer_id
  pub ids : (id : ℤ) → Below q.next_observer_id (observers q id) × Unique (observers q id)

pub init-IsValid : IsValid init
unfolding init get_observers lookup
init-IsValid = record {
  registry = Topics.Invariant.init-IsValid;
  started = omega arith;
  ids = λ id. (tt, tt);
}

abbrev with_id : ObserverDescriptor → ℕ → ObserverDescriptor
with_id d n = record d { observer_id = n }

-- A new observer gets the next ID, goes to the end of its topic's vector and leaves every other
-- topic alone; an invalid topic gives the ID 0 and changes no vector.
pub add_observer_lem :
    (q : EventQueue) (topic : String) (d : ObserverDescriptor)
    → let topic_id = (Topics.register q.registry topic).0 in
      let (observer_id, q') = add_observer q topic d in
      (observer_id ≡ (if is_neg topic_id then 0 else q.next_observer_id))
      × ((id : ℤ)
          → observers q' id ≡ (
              if is_neg topic_id
              then observers q id
              else if int_beq topic_id id
              then observers q id ++ with_id d q.next_observer_id ∷ []
              else observers q id))
unfolding add_observer get_observers
add_observer_lem q topic d = (
  ground arith,
  λ id. ground (
    arith,
    lookup-insert topic_id id
        (or_empty (lookup topic_id q.topic_observers) ++ with_id d q.next_observer_id ∷ [])
        q.topic_observers,
    int_beq_iff topic_id id,
  ),
)
  where
    topic_id : ℤ
    topic_id = (Topics.register q.registry topic).0

pub add_observer-kept :
    (q : EventQueue) (topic : String) (d : ObserverDescriptor)
    → let q' = (add_observer q topic d).1 in
      (q'.registry ≡ (Topics.register q.registry topic).1)
      × (q'.next_observer_id ≡ (
          if is_neg (Topics.register q.registry topic).0
          then q.next_observer_id
          else (q.next_observer_id + 1) % 2 ^ 64))
unfolding add_observer
add_observer-kept q topic d = ground arith

abbrev Good : ℕ → List ObserverDescriptor → Type 0
Good n ds = Below n ds × Unique ds

Good-if :
    (n : ℕ) (b : Bool) (xs ys : List ObserverDescriptor)
    → Good n xs
    → Good n ys
    → Good n (if b then xs else ys)
Good-if n true xs ys h k = h
Good-if n false xs ys h k = k

-- `AddObserver` keeps the IDs unique and below the counter, as long as the counter does not wrap.
pub add_observer-IsValid :
    {q : EventQueue} (topic : String) (d : ObserverDescriptor)
    → q.next_observer_id + 1 < 2 ^ 64
    → IsValid q
    → IsValid (add_observer q topic d).1
add_observer-IsValid {q} topic d small v =
    elim (Bool-cases (is_neg (Topics.register q.registry topic).0)) [
      | inl e ↦ record {
        registry = rw kept.0 (register-IsValid topic v.registry);
        started = rw (kept.1, e) v.started;
        ids = λ id. rw ((add_observer_lem q topic d).1 id, kept.1, e) (v.ids id);
      }
      | inr e ↦ record {
        registry = rw kept.0 (register-IsValid topic v.registry);
        started = rw (kept.1, e) (omega arith);
        ids = λ id.
            rw ((add_observer_lem q topic d).1 id, kept.1, e, next)
              (Good-if (q.next_observer_id + 1) _ _ _
                (fresh_last q.next_observer_id (observers q id) (with_id d q.next_observer_id) refl
                  (v.ids id))
                (Below-suc q.next_observer_id (observers q id) (v.ids id).0, (v.ids id).1));
      }
    ]
  where
    next : (q.next_observer_id + 1) % 2 ^ 64 ≡ q.next_observer_id + 1
    next = omega arith

    kept :
        ((add_observer q topic d).1.registry ≡ (Topics.register q.registry topic).1)
        × ((add_observer q topic d).1.next_observer_id ≡ (
            if is_neg (Topics.register q.registry topic).0
            then q.next_observer_id
            else (q.next_observer_id + 1) % 2 ^ 64))
    kept = add_observer-kept q topic d

abbrev pub Loop : Type 0
Loop = List ObserverDescriptor → List ObserverDescriptor × List ObserverDescriptor

-- The three removals work on one topic's vector.
pub replace_observers_lem :
    (q : EventQueue) (topic_id : ℤ) (loop : Loop)
    → loop [] ≡ ([], [])
    → (id : ℤ)
    → observers (replace_observers q topic_id loop) id
      ≡ (if int_beq topic_id id then (loop (observers q id)).0 else observers q id)
unfolding replace_observers get_observers
replace_observers_lem q topic_id loop nothing id =
    elim (Option-cases (lookup topic_id q.topic_observers)) [
      | inl e ↦ ground (arith, int_beq_iff topic_id id)
      | inr (ds, e) ↦
          ground (
            arith,
            int_beq_iff topic_id id,
            lookup-insert topic_id id (loop ds).0 q.topic_observers,
          )
    ]

replace_observers-kept :
    (q : EventQueue) (topic_id : ℤ) (loop : Loop)
    → let q' = replace_observers q topic_id loop in
      (q'.registry ≡ q.registry) × (q'.next_observer_id ≡ q.next_observer_id)
unfolding replace_observers
replace_observers-kept q topic_id loop = ground arith

-- A loop that only drops descriptors.
record Erases (loop : Loop) : Type 0 where
  nothing : loop [] ≡ ([], [])
  good : (n : ℕ) (ds : List ObserverDescriptor) → Good n ds → Good n (loop ds).0

erase_all-Erases : (matches : ObserverDescriptor → Bool) → Erases (erase_all matches)
unfolding erase_all
erase_all-Erases matches = record {
  nothing = refl;
  good = λ n ds g. (erase_all-All matches _ ds g.0, erase_all-Unique matches ds g.1);
}

erase_first-Erases : (n : ℕ) → Erases (erase_first (has_id n))
unfolding erase_first
erase_first-Erases n = record {
  nothing = refl;
  good =
      λ m ds g. rw (erase_first-eq-erase_all n ds g.1) ((erase_all-Erases (has_id n)).good m ds g);
}

replace_observers-IsValid :
    {q : EventQueue} (topic_id : ℤ) {loop : Loop}
    → Erases loop
    → IsValid q
    → IsValid (replace_observers q topic_id loop)
replace_observers-IsValid {q} topic_id {loop} er v = record {
  registry = rw kept.0 v.registry;
  started = rw kept.1 v.started;
  ids = λ id.
      rw (replace_observers_lem q topic_id loop er.nothing id, kept.1)
        (Good-if q.next_observer_id _ _ _ (er.good q.next_observer_id (observers q id) (v.ids id))
          (v.ids id));
}
  where
    kept :
        ((replace_observers q topic_id loop).registry ≡ q.registry)
        × ((replace_observers q topic_id loop).next_observer_id ≡ q.next_observer_id)
    kept = replace_observers-kept q topic_id loop

-- Every removal keeps the invariant.
pub remove-IsValid :
    {q : EventQueue} (topic : String) (callback instance_ptr : Option ℕ) (observer_id : ℕ)
    → IsValid q
    → IsValid (remove_callback q topic callback).0
      × IsValid (remove_method q topic instance_ptr callback).0
      × IsValid (remove_by_id q topic observer_id).0
unfolding remove_callback remove_method remove_by_id
remove-IsValid {q} topic callback instance_ptr observer_id v = (
  replace_observers-IsValid (Topics.resolve q.registry topic)
      (erase_all-Erases (has_callback callback)) v,
  replace_observers-IsValid (Topics.resolve q.registry topic)
      (erase_all-Erases (has_method instance_ptr callback)) v,
  by_id (Bool-cases (observer_id == 0)),
)
  where
    by_id :
        (observer_id == 0 ≡ true) ⊎ (observer_id == 0 ≡ false)
        → IsValid (remove_by_id q topic observer_id).0
    by_id (inl e) = rw (e, remove_by_id) v
    by_id (inr e) =
        rw (e, remove_by_id)
          (replace_observers-IsValid (Topics.resolve q.registry topic)
            (erase_first-Erases observer_id) v)

-- `RemoveObserverById` erases the ID from the topic that the name resolves to, and the ID 0 from
-- none.
pub remove_by_id_lem :
    (q : EventQueue) (topic : String) (observer_id : ℕ) (id : ℤ)
    → observers (remove_by_id q topic observer_id).0 id ≡ (
        if observer_id == 0
        then observers q id
        else if int_beq (Topics.resolve q.registry topic) id
        then (erase_first (has_id observer_id) (observers q id)).0
        else observers q id)
unfolding remove_by_id
remove_by_id_lem q topic observer_id id = elim (Bool-cases (observer_id == 0)) [
  | inl e ↦ rw e
  | inr e ↦ rw e (
      replace_observers_lem q (Topics.resolve q.registry topic) (erase_first (has_id observer_id))
        ((erase_first-Erases observer_id).nothing) id)
]

-- The ID that `AddObserver` returned takes exactly that observer off again: after
-- `RemoveObserverById` every topic has the observers that it had before.
pub add_observer-remove_by_id :
    {q : EventQueue} (topic : String) (d : ObserverDescriptor) (id : ℤ)
    → IsValid q
    → let (observer_id, q') = add_observer q topic d in
      observers (remove_by_id q' topic observer_id).0 id ≡ observers q id
add_observer-remove_by_id {q} topic d id v = ground (
  arith,
  remove_by_id_lem (add_observer q topic d).1 topic (add_observer q topic d).0 id,
  (add_observer_lem q topic d).0,
  (add_observer_lem q topic d).1 id,
  (add_observer-kept q topic d).0,
  (register-resolve topic v.registry).0,
  v.started,
  erase_first_last (observers q id) (with_id d q.next_observer_id)
      (Below-ne q.next_observer_id (observers q id) (v.ids id).0),
)
