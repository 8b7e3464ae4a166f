-- ===== src/Posting.antt =====
-- packages/core/src/posting: the ledger of posting events. Events are validated against a registry,
-- posted at most once for a key, reversed by a new event, and retried or resolved after a failure.
pub mod Registry
pub mod Ledger
pub mod Service
pub mod Reversal
pub mod Exceptions
pub mod Invariant
pub mod Runs
pub mod Keys
