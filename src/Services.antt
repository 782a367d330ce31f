-- ===== src/Services.antt =====
-- The business workflows (app/services). Each runs in one block of a session.
pub mod Lifecycle
pub mod PositionService
pub mod ExecutionService
pub mod OrderService
pub mod CancellationService
pub mod AccountService
pub mod MarketDataService
