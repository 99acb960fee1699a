-- ===== src/Portal.antt =====
-- Administration of the portal: which tenant a branch belongs to, and the staff rows of its users.
pub mod Ownership
pub mod Staff
