-- ===== src/EventQueue.antt =====
-- src/eventqueue.h and src/eventqueue.cpp: `EventQueue`, the queue with string topics that
-- `MessageCenter` drives from its worker thread.
pub mod Topics
pub mod Types
pub mod State
pub mod Observers
pub mod Messages
pub mod Dispatch
pub mod Handlers
pub mod Removal
pub mod Faults
