-- ===== src/Tests.antt =====
-- Runs of the modelled functions on small inputs, and the theorems at concrete inputs.
mod States
mod Runs
mod Channels
mod Disturbed
mod Examples
mod Segments
mod Threads
mod Java
mod Methods
