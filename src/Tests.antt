-- ===== src/Tests.antt =====
-- Runs of the services on small databases, and the theorems applied to them.
mod Data
mod Steps
mod Stock
mod Documents
mod Requests
mod Reading
mod Masters
mod Dashboards
