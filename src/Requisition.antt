-- ===== src/Requisition.antt =====
-- backend/app/services/purchase_requisition_service.py: requisitions and their approval.
pub mod Defs
pub mod Create
pub mod Status
pub mod Approval
pub mod Edit
pub mod Transitions
pub mod Read
pub mod Frame
pub mod Stock
pub mod Related
pub mod Lifecycle
pub mod Moves
pub mod Scope
pub mod Edits
pub mod Totals
