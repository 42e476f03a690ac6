-- ===== src/Keys.antt =====
-- Virtual keys (crates/drgtw-keys/src/lib.rs): authentication, models, rate limits and budgets.
pub mod Config
pub mod Pattern
pub mod Auth
pub mod Models
pub mod KeyIndex
pub mod OldKey
pub mod Budget
pub mod Rate
mod Tests
