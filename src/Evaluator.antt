-- ===== src/Evaluator.antt =====
-- internal/alertrule/evaluator.go
pub mod Templates
pub mod Deciding
pub mod Triggering
pub mod Guarding
pub mod Rendering
pub mod Raising
pub mod Diverging
