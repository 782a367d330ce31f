-- ===== src/Persistence.antt =====
-- Sessions and repositories (app/database.py, app/repositories).
pub mod Session
pub mod Orders
pub mod Accounts
pub mod Positions
pub mod Queries
pub mod Keeps
pub mod Events
