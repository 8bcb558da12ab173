-- ===== src/Tests.antt =====
-- Witnesses of the properties, and runs of the model on concrete conversations.
mod State
mod Buffer
mod Body
mod Runs
mod Calls
mod Safe
mod Headers
mod Counted
mod Values
mod Written
