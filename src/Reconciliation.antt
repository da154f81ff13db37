-- ===== src/Reconciliation.antt =====
-- backend/app/services/stock_reconciliation_service.py: counts of the stock, from the draft with its
-- snapshots to the posted adjustment.
pub mod Defs
pub mod Draft
pub mod Edit
pub mod Approve
pub mod Amounts
pub mod Books
pub mod Read
pub mod Frame
pub mod Keeps
pub mod Others
pub mod Refusals
pub mod Snapshots
