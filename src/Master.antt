-- ===== src/Master.antt =====
-- The master data: backend/app/services/material_service.py, supplier_service.py,
-- warehouse_service.py and inventory_policy_service.py. A material, supplier or warehouse is kept as
-- its status: its code is what the operation that creates it returns, and the other attributes are
-- text.
pub mod Materials
pub mod Suppliers
pub mod Warehouses
pub mod Policies
pub mod Frame
pub mod Ranges
pub mod Switches
