-- ===== src/Startup.antt =====
-- How the program starts: `main` and its helpers (nerfnet/net/nerfnet_main.cc) and the constructor of
-- class RadioInterface (nerfnet/net/radio_interface.cc). The operating system, the RF24 object and
-- the parsed command line are parameters.
pub mod Config
pub mod Parsing
pub mod Tunnel
pub mod Radio
pub mod Main
pub mod Descriptors
pub mod Launches
use n_rf24_module.Prelude.{Bool, Option, none, some, if◌then◌else◌}

-- A call of the program: CHECK has failed and the program has exited with the world as it was then,
-- an exception has ended it, or the call has returned.
pub data Outcome (W A : Type 0) : Type 0 where
  exits : W → Outcome W A
  throws : Outcome W A
  returns : A → W → Outcome W A

-- `CHECK(cond, ...)`, and what follows it.
abbrev pub check : {W A : Type 0} → Bool → W → Outcome W A → Outcome W A
check cond w rest = if cond then rest else exits w

-- The next call, where the one before has returned.
abbrev pub then_do : {W A B : Type 0} → Outcome W A → (A → W → Outcome W B) → Outcome W B
then_do (exits w) f = exits w
then_do throws f = throws
then_do (returns a w) f = f a w

-- A CHECK of something that may be missing, and what is done with it.
abbrev pub need : {W A B : Type 0} → Option A → W → (A → W → Outcome W B) → Outcome W B
need none w f = exits w
need (some a) w f = f a w
