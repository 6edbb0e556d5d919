-- ===== src/Examples.antt =====
-- Runs of the definitions on small inputs, and the theorems at inputs that meet their hypotheses.
mod Text
mod Driver
mod Checks
mod Statements
mod Setup
mod Sessions
mod Values
mod Tables
mod Stored
mod Advisories
mod TestDatabases
