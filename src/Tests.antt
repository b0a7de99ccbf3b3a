-- ===== src/Tests.antt =====
-- The definitions run on small inputs, and the theorems at inputs that meet their hypotheses.
mod Sessions
mod Views
mod Access
mod Edits
mod Remotes
mod Replacements
mod Editing
mod Ids
mod Histories
mod Batches
mod Transactions
mod ViewCaches
