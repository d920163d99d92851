-- ===== src/Auth.antt =====
-- src/auth: which product a session belongs to, and how a tablet is paired with an account.
pub mod Product
pub mod Device
pub mod UserCode
