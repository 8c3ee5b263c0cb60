-- ===== src/Examples.antt =====
-- The theorems at concrete inputs.
mod Sequence
mod Recovery
mod Codec
mod Queue
mod Wire
mod Wheel
mod Machine
mod Stream
mod Transmit
mod Acks
mod Sending
