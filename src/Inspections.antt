-- ===== src/Inspections.antt =====
-- Inspection reports (src/modules/inspections).
pub mod Conditions
pub mod Validation
pub mod Ratings
pub mod Records
pub mod Uploads
pub mod Guards
pub mod Drafts
pub mod Final
pub mod Photos
pub mod Lifecycle
pub mod Delivery
