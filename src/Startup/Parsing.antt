-- ===== src/Startup/Parsing.antt =====
-- Which options `main` (nerfnet/net/nerfnet_main.cc) accepts, and what they become.
use Prim.Native.String.{String}
use text.Mathlib.TextEquality.{eq_iff}
use n_rf24_module.Prelude.{◌≤◌, ◌≡◌, ◌↔◌, refl, ap, ◌∙◌, true, some, arith}
use n_rf24_module.Startup.Config.{
  DataRate, rf24_2mbps, rf24_1mbps, rf24_250kbps, CrcLength, rf24_crc_8, rf24_crc_16, RadioConfig,
  default_config, Options, parse_data_rate, parse_crc_length, configure,
}

-- How the help text writes the values.
abbrev pub rate_text : DataRate → String
rate_text rf24_2mbps = "2mbps"
rate_text rf24_1mbps = "1mbps"
rate_text rf24_250kbps = "250kbps"

abbrev pub crc_text : CrcLength → String
crc_text rf24_crc_8 = "8"
crc_text rf24_crc_16 = "16"

parse_rate_sound :
    (value : String) (before : DataRate)
    → (parse_data_rate value before).0 ≡ true
    → value ≡ rate_text (parse_data_rate value before).1
unfolding parse_data_rate
parse_rate_sound value before h =
    ground (arith, eq_iff value "2mbps", eq_iff value "1mbps", eq_iff value "250kbps")

parse_rate_text : (rate before : DataRate) → parse_data_rate (rate_text rate) before ≡ (true, rate)
unfolding parse_data_rate
parse_rate_text rf24_2mbps before = refl
parse_rate_text rf24_1mbps before = refl
parse_rate_text rf24_250kbps before = refl

parse_crc_sound :
    (value : String) (before : CrcLength)
    → (parse_crc_length value before).0 ≡ true
    → value ≡ crc_text (parse_crc_length value before).1
unfolding parse_crc_length
parse_crc_sound value before h = ground (arith, eq_iff value "8", eq_iff value "16")

parse_crc_text : (crc before : CrcLength) → parse_crc_length (crc_text crc) before ≡ (true, crc)
unfolding parse_crc_length
parse_crc_text rf24_crc_8 before = refl
parse_crc_text rf24_crc_16 before = refl

-- A configuration that fits the options.
abbrev pub Describes : Options → RadioConfig → Type 0
Describes o c =
    (o.rf_data_rate ≡ rate_text c.data_rate)
    × (o.rf_crc ≡ crc_text c.crc_length)
    × (o.rf_retry_delay ≡ c.retry_delay)
    × (o.rf_retry_count ≡ c.retry_count)
    × (c.retry_delay ≤ 15)
    × (c.retry_count ≤ 15)
    × (c.pa_level ≡ default_config.pa_level)

-- The checks accept exactly the options that write a configuration of the radio's values, and make
-- that configuration of them.
pub configure_iff : (o : Options) (c : RadioConfig) → (configure o ≡ some c) ↔ Describes o c
unfolding configure
configure_iff o c = (
  (λ h. ground (
    arith,
    parse_rate_sound o.rf_data_rate default_config.data_rate,
    parse_crc_sound o.rf_crc default_config.crc_length,
  )),
  (λ h.
      let rate =
        ap (λ v. parse_data_rate v default_config.data_rate) (h.0)
        ∙ parse_rate_text c.data_rate default_config.data_rate in
      let crc =
        ap (λ v. parse_crc_length v default_config.crc_length) (h.1)
        ∙ parse_crc_text c.crc_length default_config.crc_length in
      ground (arith, rate, crc)),
)
