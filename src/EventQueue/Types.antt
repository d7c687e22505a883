-- ===== src/EventQueue/Types.antt =====
-- The types of src/eventqueue.h. A pointer to code, to an object of a client or to a payload is a
-- number that stands for its identity, and a null pointer is `none`.
use message_center_cpp.Common.{ℕ, Bool, Option, none}

pub record ObserverDescriptor : Type 0 where
  pub observer_id : ℕ
  pub callback : Option ℕ
  pub callback_method : Option ℕ
  pub callback_func : Option ℕ
  pub observer_instance : Option ℕ

pub record Message : Type 0 where
  pub tid : ℕ
  pub obj : Option ℕ
  pub cleanup_payload : Bool

-- A call of client code that `Dispatch` makes, with the topic ID and the message that it passes.
pub data Invocation : Type 0 where
  function : (callback id : ℕ) → Message → Invocation
  method : (instance_ptr callback id : ℕ) → Message → Invocation
  func : (callback id : ℕ) → Message → Invocation

-- `new ObserverDescriptor()`: every member is zero.
abbrev pub blank : ObserverDescriptor
blank = record {
  observer_id = 0;
  callback = none;
  callback_method = none;
  callback_func = none;
  observer_instance = none;
}
