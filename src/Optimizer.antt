-- ===== src/Optimizer.antt =====
-- src/optimizer: the rewriting of logical plans.
pub mod Folding
pub mod Conjuncts
pub mod Pushdown
pub mod Plans
mod Tests
