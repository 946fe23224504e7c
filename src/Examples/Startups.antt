-- ===== src/Examples/Startups.antt =====
-- The start of the program and the IRQ line at concrete inputs.
use n_rf24_module.Prelude.{
  ℕ, ◌+◌, ◌-◌, ◌%◌, ◌^◌, ◌≡◌, ◌⊎◌, ◌↔◌, refl, true, List, [], ◌∷◌, some, arith, Any, take,
  map_option, or_else, first, value_or,
}
use n_rf24_module.Irq.{Board, Chip, Target, minus_one}
use n_rf24_module.Irq.Text.{gpio, gpiochip, to_lower_byte, is_preferred_gpio_chip_label}
use n_rf24_module.Irq.Resolve.{
  find_chip_name_by_label_and_lines, find_chip_loop, resolve_irq_target_from_offset,
  resolve_irq_target, resolve_irq_target_from_global, entry_loop, try_entry, entry_target,
  offset_loop,
}
use n_rf24_module.Irq.Resolved.{
  chip_name_of, is_exact, is_labelled, is_usable, is_preferred, target_of, find_chip_name-first,
  from_offset-first,
}
use n_rf24_module.Irq.Bounds.{Serves, Offers, resolve-Bounds}
use n_rf24_module.Irq.Setup.{Gpiod}
use n_rf24_module.Pipes.{pipe_address, address_width, pipes-on_air}

-- Two chips of one label, and one of another; the directory lists the second.
abbrev small_chip : Chip
small_chip = record { name = some (1 ∷ []); label = some gpio; num_lines = 8 }

abbrev large_chip : Chip
large_chip = record { name = some (2 ∷ []); label = some gpio; num_lines = 54 }

abbrev other_chip : Chip
other_chip = record { name = some (3 ∷ []); label = some (0 ∷ []); num_lines = 54 }

abbrev chips : List Chip
chips = other_chip ∷ small_chip ∷ large_chip ∷ []

abbrev board : Board
board = record {
  directory = some (
      record {
        is_directory = true;
        file_name = gpiochip;
        base = some 512;
        ngpio = some 54;
        label = gpio;
      }
      ∷ []);
  chips = some chips;
}

find_chip_name-first_example :
    find_chip_name_by_label_and_lines (some chips) gpio 54
    ≡ map_option chip_name_of
        (or_else (first (is_exact gpio 54) chips) (first (is_labelled gpio) chips))
find_chip_name-first_example = find_chip_name-first gpio 54 chips

from_offset-first_example :
    resolve_irq_target_from_offset (some chips) 6
    ≡ map_option (target_of 6) (or_else (first (is_preferred 6) chips) (first (is_usable 6) chips))
from_offset-first_example = from_offset-first 6 chips

-- GPIO 518 is line 6 of the chip with 54 lines.
abbrev line_6 : Target
line_6 = record { chip_name = 2 ∷ []; chip_label = gpio; line_offset = 6; global_gpio = 518 }

resolved_518 : resolve_irq_target board 518 ≡ some (some line_6)
unfolding resolve_irq_target resolve_irq_target_from_global entry_loop try_entry entry_target
    find_chip_name_by_label_and_lines find_chip_loop
resolved_518 = refl

-- BCM line 6 is found on the first chip of a preferred label.
resolved_6 :
    resolve_irq_target board 6
    ≡ some (
        some (record {
          chip_name = 1 ∷ [];
          chip_label = gpio;
          line_offset = 6;
          global_gpio = minus_one;
        }))
unfolding resolve_irq_target resolve_irq_target_from_global entry_loop try_entry entry_target
    find_chip_name_by_label_and_lines find_chip_loop resolve_irq_target_from_offset offset_loop
    is_preferred_gpio_chip_label to_lower_byte
resolved_6 = refl

-- Without the chip of 54 lines, GPIO 550 is taken for line 38 of the chip with 8 lines.
abbrev short_board : Board
short_board = record board { chips = some (other_chip ∷ small_chip ∷ []) }

resolved_550 :
    resolve_irq_target short_board 550
    ≡ some (
        some
          (record { chip_name = 1 ∷ []; chip_label = gpio; line_offset = 38; global_gpio = 550 }))
unfolding resolve_irq_target resolve_irq_target_from_global entry_loop try_entry entry_target
    find_chip_name_by_label_and_lines find_chip_loop
resolved_550 = refl

resolve-Bounds_example :
    Any (Serves board.chips 518 line_6) (value_or board.directory [])
    ⊎ Any (Offers 518 line_6) (value_or board.chips [])
resolve-Bounds_example =
    resolve-Bounds board 518 line_6 (omega arith) ((omega arith, omega arith), tt) resolved_518

-- A libgpiod that opens everything; the state of the world counts open chips and held lines.
abbrev counting : Gpiod (ℕ × ℕ)
counting = record {
  ChipPointer = ℕ;
  LinePointer = ℕ;
  chip_open_by_name = λ name w. (some 7, (w.0 + 1, w.1));
  chip_get_line = λ chip offset w. (some offset, w);
  line_request_falling_edge_events = λ line w. (true, (w.0, w.1 + 1));
  line_release = λ line w. (w.0, w.1 - 1);
  chip_close = λ chip w. (w.0 - 1, w.1);
}

-- Two addresses that differ in their high byte only.
pipes-on_air_example :
    (take address_width (pipe_address 0x01443322) ≡ take address_width (pipe_address 0x02443322))
    ↔ (0x01443322 % 2 ^ 24 ≡ 0x02443322 % 2 ^ 24)
pipes-on_air_example = pipes-on_air 0x01443322 0x02443322
