-- ===== src/Tests.antt =====
-- Runs of the definitions on small inputs, and each theorem with hypotheses applied to one.
mod Fixtures
mod Texts
mod Engine
mod Queue
mod Notify
mod Delivery
mod Storage
mod Config
mod Files
mod Checks
mod Run
mod Machine
mod Client
mod App
