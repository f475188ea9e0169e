-- ===== src/Tests.antt =====
-- Concrete runs, and the theorems at concrete inputs.
mod Wire
mod Values
mod Wires
mod Messages
mod Manager
mod Sessions
mod Serving
mod Archive
mod Receiving
mod Codec
mod Delivering
mod Session
mod EndToEnd
mod Hashing
mod Programs
mod Sender
