-- ===== src/Irq.antt =====
-- The IRQ line of class RadioInterface (nerfnet/net/radio_interface.cc): how a pin number is resolved
-- to a line of a GPIO chip, and how that line is requested and given back. What the files under
-- /sys/class/gpio and libgpiod say is a parameter.
pub mod Text
pub mod Resolve
pub mod Resolved
pub mod Bounds
pub mod Setup
pub mod Handles
use n_rf24_module.Prelude.{ℕ, ◌+◌, ◌%◌, ◌^◌, Bool, List, Option, ltb, leb}

-- A 32-bit `int`, as the word that holds it: -1 is 2 ^ 32 - 1. Overflow, which is undefined in the
-- code, wraps around here.
abbrev pub int_key : ℕ → ℕ
int_key n = (n + 2 ^ 31) % 2 ^ 32

abbrev pub int_lt : ℕ → ℕ → Bool
int_lt a b = ltb (int_key a) (int_key b)

abbrev pub minus_one : ℕ
minus_one = 4294967295

abbrev pub is_negative : ℕ → Bool
is_negative n = leb (2 ^ 31) n

-- `ResolvedIrqTarget`
pub record Target : Type 0 where
  pub chip_name : List ℕ
  pub chip_label : List ℕ
  pub line_offset : ℕ
  pub global_gpio : ℕ

-- What libgpiod tells of a chip; `none` is a null pointer.
pub record Chip : Type 0 where
  pub name : Option (List ℕ)
  pub label : Option (List ℕ)
  pub num_lines : ℕ

-- What a directory below /sys/class/gpio holds: the numbers that ReadIntFile finds in `base` and
-- `ngpio`, and the first line of `label`.
pub record Entry : Type 0 where
  pub is_directory : Bool
  pub file_name : List ℕ
  pub base : Option ℕ
  pub ngpio : Option ℕ
  pub label : List ℕ

-- `none` for the directory: the iterator throws; for the chips: the iterator is null.
pub record Board : Type 0 where
  pub directory : Option (List Entry)
  pub chips : Option (List Chip)
