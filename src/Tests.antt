-- ===== src/Tests.antt =====
-- Runs of the model over a small instance of the primitives, and the theorems at concrete inputs.
mod Toy
mod Store
mod Wire
mod Exchange
mod Keys
mod Agreement
mod Boundary
mod Session
mod Orders
mod Handles
mod Integrity
mod Receiver
mod Matching
