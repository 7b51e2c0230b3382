-- ===== src/Inventory.antt =====
-- apps/api/app/services/inventory_service.py: the tables it writes, and its operations.
pub mod Model
pub mod Lifecycle
pub mod Books
pub mod Commands
pub mod Manual
pub mod Transfer
pub mod Count
pub mod Threshold
