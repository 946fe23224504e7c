-- ===== src/Lib.antt =====
-- nerfnet: an IP tunnel over a pair of nRF24L01 radios. One node is the coordinator
-- (PrimaryRadioInterface) and starts every exchange, the other is the peer (SecondaryRadioInterface)
-- and answers one frame with one frame. A tunnel thread on each node queues the IP packets that it
-- reads; the radio loop cuts them into fragments of at most 27 bytes, numbers the fragments 1 to 31,
-- keeps one in flight until it is acknowledged, and writes what it has put together to the tunnel.
--
-- The parts, and the code that they model:
--
-- - Frame: FrameType, MacFrame, EncodeMacFrame and DecodeMacFrame (nerfnet/net/radio_interface.h and
--   .cc). A packet is a list of bytes; a function that fills a buffer returns its flag and the buffer.
-- - Packet: IsValidIpPacket (nerfnet/net/radio_interface.cc).
-- - RadioInterface: the members of class RadioInterface, and NextSeq, AdvanceTxSeq, IsExpectedRxSeq
--   (Sequence), BuildNextDataFrameLocked, CommitAckLocked, GetTransferSize, PendingHintLocked
--   (Transmit), ConsumeDataFrameLocked, ResetRxAssemblyLocked, WriteTunnel (Assembly). A method that
--   runs under read_buffer_mutex_ is one step of the state. What is handed to write() is listed in
--   `tunnel_written`.
-- - Session: two such nodes, and a history of what their tunnel threads read and of frames that are
--   heard or lost.
-- - Tunnel: TunnelThread (nerfnet/net/radio_interface.cc) as a step relation, beside the methods that
--   the radio's thread runs on the same queue.
-- - Pipes: the pipe addresses that the constructors of the two roles open.
-- - Driver: Send, Receive, WaitForRxReady, RecoverAfterTransmitFailure (nerfnet/net/radio_interface.cc)
--   over `Device`, a record of the calls on the RF24 object, the gpiod line and the clock. Those are not
--   part of the repository, so the record is a parameter; `Clock` and `Reads` name what is relied on.
-- - Coordinator: class PrimaryRadioInterface (nerfnet/net/primary_radio_interface.h and .cc):
--   ChooseCoordinatorTxFrame (Choose), ApplyPeerResponse and RecordSendFailure (Apply),
--   HandleTransactionFailure (Failure), ConnectionReset and PerformExchange (Exchange), one iteration
--   of Run (Loop). The other children say what these keep and when they return.
-- - Peer: class SecondaryRadioInterface (nerfnet/net/secondary_radio_interface.h and .cc):
--   ApplyCoordinatorRequest, ChoosePeerResponse, RecordRx, RecordTx, RecordSendFailure (Request),
--   HandleReset and one iteration of Run (Loop).
-- - System: the coordinator and the peer against each other, once they are connected: PerformExchange
--   on one side and the handling of a packet on the other, over a channel that loses frames.
--   A frame is heard in its own exchange or not at all, and the tunnel threads read between exchanges.
--   Reset has the connection: ConnectionReset against HandleReset, and a connection that is given up.
--   In the code that happens after a number of failures, which HandleTransactionFailure counts; here it
--   may happen at any time.
-- - Loops: the two Run loops over two radios. The coordinator's outside (`Device`) holds the peer's
--   program, which handles each packet that reaches it with a radio of its own; `Medium` and `Antenna`
--   name what is relied on of the radios, `Loud` and `Lossless` what is relied on in addition while
--   nothing is lost. What the loops do is compared with the turns of System/Reset.
-- - Irq: ResolveIrqTarget and its helpers (Text, Resolve), InitializeIrq and CleanupIrq (Setup) of
--   nerfnet/net/radio_interface.cc. `Board` is what /sys/class/gpio and the iterator over the chips
--   say, `Gpiod` the calls of libgpiod; `Counts` names what is relied on.
-- - Startup: nerfnet/net/nerfnet_main.cc: ParseDataRate, ParseCrcLength and the checks of the options
--   (Config), SetInterfaceFlags, SetIPAddress and OpenTunnel (Tunnel), `main` (Main), and the
--   constructor of RadioInterface (Radio). The parsed command line, the system calls (`System`) and the
--   RF24 object (`Rf24`) are parameters; a call exits, throws or returns.
-- - Examples: tests, and the theorems at concrete inputs.
--
-- Conventions. Bytes and words are numbers with their wrap-around written out; the failure streaks,
-- of type int in the code, are plain numbers. The packets that the tunnel thread queues while
-- PerformExchange, ConnectionReset or the handling of a packet is outside of its locked regions are
-- arguments of the method. Log lines are left out; the counters that only they print are kept.
--
-- Fuel. A loop that waits for the radio takes fuel, one unit a round, and returns `none` when it runs
-- out. Send waits 20 ms in rounds of 50 us, so 401 rounds are enough. Receive with a timeout of t us
-- needs t / 50 + 2 rounds, which is 2002 for the 100 ms that the coordinator waits; with an IRQ line it
-- needs t + 1 and one more for each wait that ends at once, a signal or an event being there already
-- (`Waits` of Driver/Interrupts). The peer's Receive has no timeout, so its handling of a packet is
-- studied from the received packet on.
--
-- Not modelled: the parsing of the command line by TCLAP; reading the files under /sys/class/gpio and
-- the iterator over the chips, which are values of `Board`; the end of the program, since Run never
-- returns and the destructor of RadioInterface with it; nerfnet/util but for CHECK: it has the logging,
-- a formatting helper that nothing calls and the wrappers of the clock, fields of `Device`. In System
-- and Loops no answer comes late, as one that arrives after the coordinator has given up waiting, and
-- would be read for the answer to its next frame; the radio of Loops keeps an answer that is not read,
-- and `is_prompt` of Loops/Medium names the bound on the peer that rules a late one out. The tunnel
-- threads read between two exchanges or iterations, but for the arguments named above.
-- `radio_turn` of System/Reset also restarts the lists of what counts as accepted (`recount`), which
-- the code does not have.
pub mod Prelude
pub mod Frame
pub mod Packet
pub mod RadioInterface
pub mod Session
pub mod Tunnel
pub mod Pipes
pub mod Driver
pub mod Coordinator
pub mod Peer
pub mod System
pub mod Loops
pub mod Irq
pub mod Startup
pub mod Examples
