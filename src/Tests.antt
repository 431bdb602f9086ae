-- ===== src/Tests.antt =====
-- Runs of the model, and the theorems at concrete inputs.
pub mod Store
pub mod Wallet
pub mod Access
pub mod Scope
pub mod JobCards
pub mod Referrals
pub mod Gst
pub mod Delivery
pub mod Inspections
pub mod Parties
pub mod Otp
pub mod Pricing
pub mod Subscription
