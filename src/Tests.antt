-- ===== src/Tests.antt =====
-- Runs of the models on small inputs, and instances of the main results.
mod Mpmc
mod Threads
mod Topics
mod Registry
mod Observers
mod Dispatch
mod Removal
mod Pool
mod PoolLockFree
mod Payload
mod Fast
mod FastThreads
mod Emulator
mod Batch
mod Broadcast
mod CenterFast
mod MessageCenter
mod Instance
