-- ===== src/Positions.antt =====
-- The processors of positions: create, increase, decrease and close.
pub mod Update
pub mod Change
pub mod Increase
pub mod Decrease
pub mod Accounts
pub mod Close
pub mod Create
