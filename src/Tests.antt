-- ===== src/Tests.antt =====
-- Runs of the model on concrete inputs, and the theorems at concrete inputs.
mod Client
mod Hash
mod Wire
mod Transfers
mod Outcomes
mod Conversations
mod Refusals
