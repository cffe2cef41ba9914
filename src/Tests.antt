-- ===== src/Tests.antt =====
-- Runs of the code at concrete inputs, where the hypotheses of the theorems hold.
mod Instances
mod Paths
mod Enforcing
mod Authorizing
mod Listing
mod Arguments
mod Tokens
mod Verifying
mod Issuing
mod Transfers
mod Publishing
mod Fetching
