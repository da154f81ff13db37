-- ===== src/Receipt.antt =====
-- backend/app/services/purchase_receipt_service.py: receiving goods against an order, and the
-- reversal of a receipt. A service function takes the database twice: `seen` is what the request's
-- session has read (its snapshot and identity map), `db` is the committed state with the request's
-- own writes. Guards and plain reads use `seen`, locking reads and conditional UPDATEs use `db`.
-- A request that runs alone has `seen` equal to `db`. The operations are in Defs, Status, Create
-- and Reverse, the proofs in the other modules below.
pub mod Defs
pub mod Status
pub mod Create
pub mod Reverse
pub mod Balances
pub mod Frame
pub mod Lines
pub mod Rounds
pub mod Ends
pub mod Keeps
pub mod Bounds
pub mod Returns
pub mod Stale
pub mod Once
pub mod Books
pub mod Read
pub mod Others
pub mod Scope
