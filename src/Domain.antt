-- ===== src/Domain.antt =====
-- The pure domain layer (app/domain).
pub mod Enums
pub mod Errors
pub mod StateMachine
pub mod OrderRules
pub mod PositionRules
