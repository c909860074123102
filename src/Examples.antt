-- ===== src/Examples.antt =====
-- The theorems at concrete inputs: jobs, tables, operators and cache entries of small size.
mod Jobs
mod Stores
mod Services
mod SignIn
mod Permissions
mod Keys
mod Rules
mod Retained
mod Publishing
mod Offices
mod Sheets
mod Tokens
