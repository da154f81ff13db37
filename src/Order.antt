-- ===== src/Order.antt =====
-- backend/app/services/purchase_order_service.py: from requisitions to orders, and back on a
-- cancellation.
pub mod Defs
pub mod Create
pub mod Status
pub mod Bounds
pub mod Versions
pub mod Read
pub mod Frame
pub mod Stock
pub mod Lifecycle
pub mod Scope
pub mod Completion
