-- ===== src/Loops.antt =====
-- Run of the coordinator and of the peer (nerfnet/net/primary_radio_interface.cc and
-- secondary_radio_interface.cc) over two radios, as one program: the coordinator's outside holds the
-- peer, which answers what its radio receives.
pub mod Bare
pub mod Turns
pub mod Heard
pub mod Answers
pub mod Medium
pub mod Calls
pub mod Exchanged
pub mod Exchanges
pub mod Resets
pub mod Iterated
pub mod Retries
pub mod Iterations
pub mod Runs
pub mod Refines
pub mod Writes
pub mod Speaks
pub mod Calm
pub mod Lossless
pub mod Stands
pub mod Gets
pub mod Talks
pub mod Connected
pub mod Calmly
pub mod Connects
pub mod Delivers
