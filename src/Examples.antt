-- ===== src/Examples.antt =====
-- Concrete inputs: tests of the definitions, and each theorem at an input that meets its hypotheses.
pub mod Packets
pub mod Frames
pub mod Sessions
pub mod Radio
pub mod Coordinators
pub mod Peers
pub mod Systems
pub mod Resets
pub mod Tunnels
pub mod Startups
pub mod Launchers
pub mod Radios
