-- ===== src/Rpc.antt =====
-- A remote call (amp.c), from amp_call on one side over the responder on the other side to the
-- callback.
pub mod Packet
pub mod Answer
pub mod Refusal
pub mod Failure
pub mod Request
