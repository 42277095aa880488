-- ===== src/Registry/Laws.antt =====
-- What the operations on one entry guarantee.
pub mod Within
pub mod Quiet
pub mod Parts
pub mod Requests
