-- ===== src/Examples/Launchers.antt =====
-- The options, the tunnel device and `main` at concrete inputs.
use n_rf24_module.Prelude.{ℕ, ◌+◌, ◌-◌, ◌≡◌, ◌⊎◌, ◌↔◌, refl, true, false, [], ◌∷◌, none, some}
use n_rf24_module.Irq.{Board}
use n_rf24_module.Irq.Resolve.{
  resolve_irq_target, resolve_irq_target_from_global, resolve_irq_target_from_offset, entry_loop,
}
use n_rf24_module.Irq.Setup.{Gpiod, no_irq, initialize_irq}
use n_rf24_module.Startup.{exits, throws, returns}
use n_rf24_module.Startup.Config.{
  Options, RadioConfig, rf24_250kbps, rf24_crc_16, rf24_pa_max, parse_data_rate, parse_crc_length,
  configure, default_options, default_config,
}
use n_rf24_module.Startup.Parsing.{Describes, configure_iff}
use n_rf24_module.Startup.Tunnel.{
  System, Flags, set_mask, set_address_and_mask, set_interface_flags, set_ip_address, open_tunnel,
}
use n_rf24_module.Startup.Descriptors.{Descriptors, Leaves, tunnel-Leaves}
use n_rf24_module.Startup.Radio.{Rf24, set_up_radio, set_up_irq, construct, open_pipes}
use n_rf24_module.Startup.Main.{primary, main, set_up_tunnel, choose_role, start_role, default_ip}
use n_rf24_module.Startup.Launches.{LaunchYields, main-Launches}

abbrev options : Options
options = record {
  interface_name = b'n' ∷ b'e' ∷ b'r' ∷ b'f' ∷ b'0' ∷ [];
  ce_pin = 25;
  irq_pin = 24;
  primary = true;
  secondary = false;
  tunnel_ip = none;
  tunnel_mask = default_ip b'0';
  primary_addr = 0x01443322;
  secondary_addr = 0x01882211;
  channel = 76;
  poll_interval_us = 2000;
  rf_data_rate = "250kbps";
  rf_crc = "16";
  rf_retry_delay = 3;
  rf_retry_count = 15;
}

abbrev config : RadioConfig
config = record {
  pa_level = rf24_pa_max;
  data_rate = rf24_250kbps;
  crc_length = rf24_crc_16;
  retry_delay = 3;
  retry_count = 15;
}

configure_iff_example : (configure options ≡ some config) ↔ Describes options config
configure_iff_example = configure_iff options config

configured : configure options ≡ some config
unfolding configure parse_data_rate parse_crc_length
configured = refl

-- The options' defaults are those of RadioConfig.
default_configured : configure default_options ≡ some default_config
unfolding configure parse_data_rate parse_crc_length
default_configured = refl

-- One retry more than the radio counts.
refused : configure (record options { rf_retry_count = 16 }) ≡ none
unfolding configure parse_data_rate parse_crc_length
refused = refl

-- A system on which every call succeeds; its state is the number of open descriptors.
abbrev system : System ℕ
system = record {
  socket = λ w. (some w, w + 1);
  open_tun = λ w. (some w, w + 1);
  close = λ fd w. w - 1;
  set_flags = λ fd name f w. (true, w);
  set_tun = λ fd name f w. (true, w);
  set_address = λ fd name a w. (true, w);
  set_netmask = λ fd name a w. (true, w);
  inet_pton = λ text. some 0;
}

abbrev system-Descriptors : Descriptors system
system-Descriptors = record {
  open_count = λ w. w;
  socket_opens = λ w. refl;
  open_tun_opens = λ w. refl;
  close_closes = λ fd w. refl;
  set_flags_same = λ fd name f w. refl;
  set_tun_same = λ fd name f w. refl;
  set_address_same = λ fd name a w. refl;
  set_netmask_same = λ fd name a w. refl;
}

tunnel-Leaves_example :
    Leaves system system-Descriptors 4 (open_tunnel system options.interface_name 3)
    × Leaves system system-Descriptors 3
        (set_interface_flags system options.interface_name Flags.up 3)
    × Leaves system system-Descriptors 3
        (set_ip_address system options.interface_name (default_ip b'1') options.tunnel_mask 3)
tunnel-Leaves_example =
    tunnel-Leaves system system-Descriptors options.interface_name (default_ip b'1')
      options.tunnel_mask Flags.up 3

-- A radio that is there and does not count anything, and a libgpiod without chips.
abbrev radio : Rf24 ℕ
radio = record {
  begin_radio = λ w. (true, w);
  set_channel = λ c w. w;
  set_pa_level = λ l w. w;
  set_data_rate = λ r w. w;
  set_address_width = λ n w. w;
  set_auto_ack = λ b w. w;
  set_retries = λ d n w. w;
  set_crc_length = λ l w. w;
  is_chip_connected = λ w. (true, w);
  open_writing_pipe = λ p w. w;
  open_reading_pipe = λ i p w. w;
}

abbrev no_gpiod : Gpiod ℕ
no_gpiod = record {
  ChipPointer = ℕ;
  LinePointer = ℕ;
  chip_open_by_name = λ name w. (none, w);
  chip_get_line = λ chip offset w. (none, w);
  line_request_falling_edge_events = λ line w. (false, w);
  line_release = λ line w. w;
  chip_close = λ chip w. w;
}

abbrev empty_board : Board
empty_board = record { directory = some []; chips = none }

abbrev no_sysfs : Board
no_sysfs = record { directory = none; chips = none }

-- The coordinator gets to Run with one descriptor open and without an IRQ line.
launched :
    main system radio no_gpiod empty_board options 0
    ≡ returns (record { role = primary; tunnel_fd = 0; config = config; irq = no_irq no_gpiod }) 1
unfolding main configure parse_data_rate parse_crc_length set_up_tunnel open_tunnel
    set_interface_flags set_ip_address set_address_and_mask set_mask choose_role start_role
    construct set_up_radio set_up_irq initialize_irq open_pipes resolve_irq_target
    resolve_irq_target_from_global entry_loop resolve_irq_target_from_offset
launched = refl

-- Without /sys/class/gpio the same options end the program.
no_gpio_directory : main system radio no_gpiod no_sysfs options 0 ≡ throws
unfolding main configure parse_data_rate parse_crc_length set_up_tunnel open_tunnel
    set_interface_flags set_ip_address set_address_and_mask set_mask choose_role start_role
    construct set_up_radio set_up_irq initialize_irq open_pipes resolve_irq_target
    resolve_irq_target_from_global
no_gpio_directory = refl

main-Launches_example :
    ((c : RadioConfig) × Describes options c
      × LaunchYields system radio no_gpiod empty_board options
          (main system radio no_gpiod empty_board options 0))
    ⊎ (((c : RadioConfig) → ¬ Describes options c)
        × (main system radio no_gpiod empty_board options 0 ≡ exits 0))
main-Launches_example = main-Launches system radio no_gpiod empty_board options 0
