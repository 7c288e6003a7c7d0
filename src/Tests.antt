-- ===== src/Tests.antt =====
-- The theorems at concrete inputs.
mod Data
mod Payloads
mod Approvals
mod Engine
mod Repair
mod Lifecycle
mod Send
mod Tasks
mod Reminders
mod TaskActions
mod Children
mod Coder
