-- ===== src/Examples.antt =====
-- The theorems at concrete inputs, and tests of the definitions.
mod Codec
mod Receiver
mod Queues
mod Sender
mod Delivery
mod Telemetry
mod Downlink
mod Stuffing
mod Frames
