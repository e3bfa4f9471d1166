-- ===== src/Cop.antt =====
-- src/osdlp_cop.c: the communications operation procedure, COP-1.
pub mod Farm
pub mod Host
pub mod Serves
pub mod Sender
pub mod Actions
pub mod Events
pub mod Dispatch
pub mod Directives
pub mod Keeps
pub mod Bounds
pub mod Acked
pub mod Table
