-- ===== src/Tests.antt =====
-- Runs of the operations on a concrete discussion, and the theorems at concrete inputs.
mod Fixture
mod Run
mod Draws
mod Posting
mod Delivering
mod Subscribing
mod Minting
mod Creating
mod Calling
mod Watching
mod Logging
mod Claiming
mod Arguments
mod Serving
mod Controlling
mod Placing
mod Guarding
