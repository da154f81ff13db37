-- ===== src/Lib.antt =====
-- The core of Manufacturing ERP Lite (backend/app): purchase requisitions, purchase orders, receipts,
-- stock counts, and the inventory balances with their append-only ledger.
--
-- The parts. A requisition is submitted and approved; an order takes quantities of approved
-- requisitions; a receipt takes quantities of a confirmed order into a warehouse; a count adjusts the
-- stock. Receipts, their reversals and counts write one ledger row per line and move the balances,
-- under locks that are taken in one order. Each service function is one transaction: it raises an
-- error, and nothing of it remains, or its caller commits.
--
-- Which file models which part:
--   * Enums, Errors: backend/app/utils/enums.py and core/exceptions.py. An exception is `err` with
--     its code; a chain of guards is a do block over `Result`.
--   * Store: backend/app/models/. A database is a record of tables, and a table an association list,
--     the newest row first. An AUTO_INCREMENT id comes from one counter for all tables.
--   * Money: backend/app/utils/money.py. A Decimal is an integer that counts its last place;
--     `in_context` is the rounding to 28 digits.
--   * Numbering: backend/app/services/numbering_service.py. A number is a record of its series, its
--     day and its place in the day; how it is printed is left out.
--   * Audit: backend/app/services/audit_service.py.
--   * Query: the WHERE, ORDER BY, OFFSET and LIMIT that the lists share.
--   * Inventory: backend/app/services/inventory_service.py (sort_keys, lock_balances, apply_inbound,
--     apply_outbound, write_transaction; in Inventory/Read the queries of balances and ledger rows).
--   * Receipt: backend/app/services/purchase_receipt_service.py (create_receipt, reverse_receipt,
--     recompute_po_status; in Receipt/Read get_receipt, list_receipts and who may read a receipt).
--   * Order: backend/app/services/purchase_order_service.py (create_po, confirm_po, cancel_po; in
--     Order/Read get_po, list_pos and who may read an order).
--   * Requisition: backend/app/services/purchase_requisition_service.py (create_pr, submit_pr,
--     cancel_pr, approve_pr, reject_pr, revise_pr; in Requisition/Edit update_pr with _sync_items; in
--     Requisition/Read get_pr and list_prs).
--   * Reconciliation: backend/app/services/stock_reconciliation_service.py (create, submit, approve
--     and reject; in Reconciliation/Edit update; in Reconciliation/Read get and list).
--   * Master: material_service.py, supplier_service.py, warehouse_service.py and
--     inventory_policy_service.py of backend/app/services.
--   * Dashboard: backend/app/services/dashboard_service.py: the counters, and in Dashboard/Activity the
--     trend and the latest activities.
--   * System: a step relation with a constructor for every request that writes (a read that the request
--     decides on may come from any earlier state), and the states that a sequence of steps reaches.
--   * Prelude: shared helpers. Tests: runs on a small database.
--
-- Concurrency. A service function takes two databases. `seen` is what the session's plain reads and
-- its ORM copies answer, from the snapshot of its transaction; `db` is the current state, which
-- conditional UPDATEs, upserts and locking reads see. A request that runs alone has both the same. An
-- attribute that is assigned to an ORM copy after a conditional UPDATE is written by the next flush
-- from the copy's value, and so it is here. Where a flush writes several rows of a document under a
-- unique key, SQLAlchemy chooses the order of the statements: whether it meets the key is the argument
-- `violates`, and then the request fails.
--
-- Bounds. Quantities, prices and amounts are unbounded integers. The schemas set no largest number, but
-- MySQL refuses a number that its DECIMAL column does not hold, and so the request, which is left out.
-- A product, which can be longer than a column, is rounded to the 28 digits of Python's decimal context
-- before it is rounded to cents. Sums and the quotients of average costs are exact here: of numbers that
-- fit their columns they have fewer digits, or the rounding to 28 digits does not change the result.
-- `quantize` fails on a result of more than 28 digits, which no column holds. All loops are recursion on
-- the request's lines or on a table's rows; the one fuel, for the digits of a product, is the number whose
-- digits are counted. A Python set that is only gone through is a list, in which a member may stand
-- twice.
--
-- Arguments of the model: which rows match the LIKE pattern of a list request (`like`), and what
-- `_has_permission` finds in the tables of the roles, which are left out.
--
-- Not modelled: the HTTP layer, authentication, the administration of departments, roles and users,
-- the migrations, the client, `list_approvals`, text that is only displayed, and the times created_at
-- and updated_at. A material, a supplier and a warehouse keep their status alone.
pub mod Prelude
pub mod Enums
pub mod Errors
pub mod Money
pub mod Query
pub mod Store
pub mod Numbering
pub mod Audit
pub mod Inventory
pub mod Receipt
pub mod Order
pub mod Requisition
pub mod Reconciliation
pub mod Master
pub mod Dashboard
pub mod System
pub mod Tests
