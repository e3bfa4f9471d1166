-- ===== src/Tc.antt =====
-- include/osdlp_tc.h, src/osdlp_tc.c: telecommand transfer frames.
pub mod Types
pub mod Setup
pub mod Frame
pub mod Receive
pub mod Transmit
