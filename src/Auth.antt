-- ===== src/Auth.antt =====
-- app/services/auth_service.py: the limits on public sign-in, the operators of a tenant, and what
-- each role may do.
pub mod RateLimit
pub mod Operators
pub mod Access
pub mod Keys
pub mod Shelves
pub mod Accounts
