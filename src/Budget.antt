-- ===== src/Budget.antt =====
-- packages/core/src/budget: the amounts of a budget's lines.
pub mod Lines
pub mod Absorption
pub mod Release
pub mod Split
pub mod Sound
pub mod Committed
pub mod Runs
pub mod Effect
pub mod Relief
pub mod Invoice
