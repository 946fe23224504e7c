-- ===== src/Startup/Radio.antt =====
-- The constructor of class RadioInterface (nerfnet/net/radio_interface.cc) and those of the two roles
-- over the RF24 object, which is a parameter.
use n_rf24_module.Prelude.{ℕ, Bool, true, List, none, some, ltb, if◌then◌else◌}
use n_rf24_module.Irq.{Board, is_negative}
use n_rf24_module.Irq.Setup.{Gpiod, IrqState, no_irq, initialize_irq}
use n_rf24_module.Pipes.{Pipes, address_width}
use n_rf24_module.Startup.{Outcome, throws, returns, check}
use n_rf24_module.Startup.Config.{RadioConfig, DataRate, CrcLength, PowerLevel}

pub record Rf24 (W : Type 0) : Type 0 where
  pub begin_radio : W → Bool × W
  pub set_channel : ℕ → W → W
  pub set_pa_level : PowerLevel → W → W
  pub set_data_rate : DataRate → W → W
  pub set_address_width : ℕ → W → W
  pub set_auto_ack : Bool → W → W
  pub set_retries : ℕ → ℕ → W → W
  pub set_crc_length : CrcLength → W → W
  pub is_chip_connected : W → Bool × W
  pub open_writing_pipe : List ℕ → W → W
  pub open_reading_pipe : ℕ → List ℕ → W → W

abbrev pub pipe_id : ℕ
pipe_id = 1

module _ {W : Type 0} (rf24 : Rf24 W) (gpiod : Gpiod W) (board : Board) where
  -- The calls between the two tests of the radio.
  unfoldable pub set_up_radio : ℕ → RadioConfig → W → W
  set_up_radio channel config w0 =
      let w1 = rf24.set_channel channel w0 in
      let w2 = rf24.set_pa_level config.pa_level w1 in
      let w3 = rf24.set_data_rate config.data_rate w2 in
      let w4 = rf24.set_address_width address_width w3 in
      let w5 = rf24.set_auto_ack true w4 in
      let w6 = rf24.set_retries config.retry_delay config.retry_count w5 in
      rf24.set_crc_length config.crc_length w6

  -- `irq_pin_ >= 0 && !InitializeIrq()`: a failure is only logged.
  unfoldable pub set_up_irq : ℕ → W → Outcome W (IrqState gpiod)
  set_up_irq irq_pin w =
      if is_negative irq_pin
      then returns (no_irq gpiod) w
      else elim (initialize_irq gpiod board irq_pin (no_irq gpiod) w) [
        | none ↦ throws
        | some (ok, irq, w1) ↦ returns irq w1
      ]

  -- The members of the link have their initial values, which are those of `RadioInterface.initial`.
  unfoldable pub construct : ℕ → RadioConfig → ℕ → W → Outcome W (IrqState gpiod)
  construct channel config irq_pin w = check (ltb channel 128) w (
      let (begun, w1) = rf24.begin_radio w in
      check begun w1 (
        let (connected, w2) = rf24.is_chip_connected (set_up_radio channel config w1) in
        check connected w2 (set_up_irq irq_pin w2)))

  -- The end of the constructors of the two roles.
  unfoldable pub open_pipes : Pipes → W → W
  open_pipes pipes w =
      rf24.open_reading_pipe pipe_id pipes.reading (rf24.open_writing_pipe pipes.writing w)
