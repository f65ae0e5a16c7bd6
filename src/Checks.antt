-- ===== src/Checks.antt =====
-- Runs of the definitions on concrete inputs, and each theorem applied to one.
mod Threads
mod Parts
mod Outside
mod Ends
mod Loops
mod Throws
mod Runs
