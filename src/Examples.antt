-- ===== src/Examples.antt =====
-- The example programs (examples): a server of the command "Sum" and its client.
pub mod Server
pub mod Client
pub mod Sum
pub mod Session
pub mod Programs
pub mod Run
