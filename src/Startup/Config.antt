-- ===== src/Startup/Config.antt =====
-- The options of nerfnet/net/nerfnet_main.cc and the configuration that they make: RadioConfig of
-- nerfnet/net/radio_interface.h, ParseDataRate, ParseCrcLength and the checks of `main`.
use Prim.Native.String.{String}
use text.Mathlib.Text.{◌==◌}
use n_rf24_module.Prelude.{
  ℕ, Bool, true, false, not, List, Option, none, some, leb, if◌then◌else◌, u8, [], ◌∷◌,
}
use n_rf24_module.Irq.{minus_one}

-- The constants of the RF24 library that the code names.
pub data DataRate : Type 0 where
  rf24_2mbps rf24_1mbps rf24_250kbps : DataRate

pub data CrcLength : Type 0 where
  rf24_crc_8 rf24_crc_16 : CrcLength

pub data PowerLevel : Type 0 where
  rf24_pa_max : PowerLevel

pub record RadioConfig : Type 0 where
  pub pa_level : PowerLevel
  pub data_rate : DataRate
  pub crc_length : CrcLength
  pub retry_delay : ℕ
  pub retry_count : ℕ

abbrev pub default_config : RadioConfig
default_config = record {
  pa_level = rf24_pa_max;
  data_rate = rf24_2mbps;
  crc_length = rf24_crc_8;
  retry_delay = 0;
  retry_count = 15;
}

-- What the command line leaves in the arguments, less the switch for the tunnel's log lines. Names and addresses are lists of bytes; `tunnel_ip`
-- is `none` where it is not set.
pub record Options : Type 0 where
  pub interface_name : List ℕ
  pub ce_pin : ℕ
  pub irq_pin : ℕ
  pub primary : Bool
  pub secondary : Bool
  pub tunnel_ip : Option (List ℕ)
  pub tunnel_mask : List ℕ
  pub primary_addr : ℕ
  pub secondary_addr : ℕ
  pub channel : ℕ
  pub poll_interval_us : ℕ
  pub rf_data_rate : String
  pub rf_crc : String
  pub rf_retry_delay : ℕ
  pub rf_retry_count : ℕ

-- An empty command line. `main` asks for one of the two roles.
abbrev pub default_options : Options
default_options = record {
  interface_name = b'n' ∷ b'e' ∷ b'r' ∷ b'f' ∷ b'0' ∷ [];
  ce_pin = 22;
  irq_pin = minus_one;
  primary = false;
  secondary = false;
  tunnel_ip = none;
  tunnel_mask =
      b'2' ∷ b'5' ∷ b'5' ∷ b'.' ∷ b'2' ∷ b'5' ∷ b'5' ∷ b'.' ∷ b'2' ∷ b'5' ∷ b'5' ∷ b'.' ∷ b'0' ∷ [];
  primary_addr = 0x90019001;
  secondary_addr = 0x90009000;
  channel = 1;
  poll_interval_us = 100;
  rf_data_rate = "2mbps";
  rf_crc = "8";
  rf_retry_delay = 0;
  rf_retry_count = 15;
}

-- The flag that is returned, and what is left in `data_rate`.
unfoldable pub parse_data_rate : String → DataRate → Bool × DataRate
parse_data_rate value data_rate =
    if value == "2mbps"
    then (true, rf24_2mbps)
    else if value == "1mbps"
    then (true, rf24_1mbps)
    else if value == "250kbps"
    then (true, rf24_250kbps)
    else (false, data_rate)

unfoldable pub parse_crc_length : String → CrcLength → Bool × CrcLength
parse_crc_length value crc_length =
    if value == "8"
    then (true, rf24_crc_8)
    else if value == "16"
    then (true, rf24_crc_16)
    else (false, crc_length)

-- The four checks; `none` is a failed CHECK.
unfoldable pub configure : Options → Option RadioConfig
configure o =
    let (rate_known, data_rate) = parse_data_rate o.rf_data_rate default_config.data_rate in
    let (crc_known, crc_length) = parse_crc_length o.rf_crc default_config.crc_length in
    if not rate_known
    then none
    else if not crc_known
    then none
    else if not (leb o.rf_retry_delay 15)
    then none
    else if not (leb o.rf_retry_count 15)
    then none
    else some (record default_config {
      data_rate = data_rate;
      crc_length = crc_length;
      retry_delay = u8 o.rf_retry_delay;
      retry_count = u8 o.rf_retry_count;
    })
