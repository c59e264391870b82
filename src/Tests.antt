-- ===== src/Tests.antt =====
-- Each theorem with hypotheses applied at a concrete input.
mod Stores
mod Keyspace
mod Lifetimes
mod Table
mod Protocol
mod Persistence
mod Threads
mod Programs
