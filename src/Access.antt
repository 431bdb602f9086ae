-- ===== src/Access.antt =====
-- Who may do what: roles (src/lib/rbac.ts), permission keys (src/constants/permission-keys.ts), the
-- permission resolver and the gates of src/middleware/auth.ts. The children model the staff access
-- levels, the collections' permissions and the gates, and hold the proofs.
pub mod Roles
pub mod Keys
pub mod Resolver
pub mod Gates
pub mod Staff
pub mod Collections
