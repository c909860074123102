-- ===== src/Rules.antt =====
-- The rules of app/rules on one row.
pub mod Counts
pub mod Flags
pub mod Integrity
use validador_final.Prelude.{String, Option}

-- `ValidationIssue` of app/core/issue.py; the rules here leave `meta` out.
pub record ValidationIssue : Type 0 where
  pub code : String
  pub severity : String
  pub message : String
  pub field : Option String
