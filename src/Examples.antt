-- ===== src/Examples.antt =====
-- The theorems at concrete inputs, and runs of the definitions on small worlds.
mod Outbox
mod Dispatcher
mod Idempotency
mod Users
mod Workspaces
mod Mail
mod Invitations
mod Tasks
mod Tokens
mod Auth
mod Accounts
mod Authorization
