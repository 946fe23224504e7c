-- ===== src/Irq/Resolve.antt =====
-- FindChipNameByLabelAndLines, ResolveIrqTargetFromGlobal, ResolveIrqTargetFromOffset and
-- ResolveIrqTarget of nerfnet/net/radio_interface.cc.
use n_rf24_module.Prelude.{
  ℕ, ◌+◌, ◌-◌, ◌%◌, ◌^◌, Bool, false, not, ◌&&◌, ◌||◌, List, [], ◌∷◌, Option, none, some, leb, ◌==◌,
  if◌then◌else◌, has_value, value_or,
}
use n_rf24_module.Irq.{int_lt, minus_one, is_negative, Target, Chip, Entry, Board}
use n_rf24_module.Irq.Text.{text_eq, starts_with, gpiochip, is_preferred_gpio_chip_label}

-- `chip_label != nullptr && label == chip_label`
abbrev pub has_label : List ℕ → Chip → Bool
has_label label chip = elim chip.label [ none ↦ false | some text ↦ text_eq label text ]

-- The loop over the chips, with the fallback so far.
unfoldable pub find_chip_loop : List ℕ → ℕ → Option (List ℕ) → List Chip → Option (List ℕ)
find_chip_loop label num_lines fallback [] = fallback
find_chip_loop label num_lines fallback (chip ∷ chips) = elim chip.name [
  | none ↦ find_chip_loop label num_lines fallback chips
  | some name ↦
      let kept = if has_label label chip && not (has_value fallback) then some name else fallback in
      let rest = find_chip_loop label num_lines kept chips in
      if has_label label chip && (chip.num_lines == num_lines) then some name else rest
]

unfoldable pub find_chip_name_by_label_and_lines : Option (List Chip) → List ℕ → ℕ → Option (List ℕ)
find_chip_name_by_label_and_lines none label num_lines = none
find_chip_name_by_label_and_lines (some chips) label num_lines =
    find_chip_loop label num_lines none chips

-- The body of the loop over /sys/class/gpio, once both numbers are read.
unfoldable pub entry_target : Option (List Chip) → ℕ → Entry → ℕ → ℕ → Option Target
entry_target chips global_gpio entry base ngpio =
    if int_lt global_gpio base || not (int_lt global_gpio ((base + ngpio) % 2 ^ 32))
    then none
    else elim (find_chip_name_by_label_and_lines chips entry.label ngpio) [
      | none ↦ none
      | some name ↦ some (record {
        chip_name = name;
        chip_label = entry.label;
        line_offset = (global_gpio + 2 ^ 32 - base) % 2 ^ 32;
        global_gpio = global_gpio;
      })
    ]

-- One round of that loop; `none` goes on to the next entry.
unfoldable pub try_entry : Option (List Chip) → ℕ → Entry → Option Target
try_entry chips global_gpio entry =
    if not entry.is_directory
    then none
    else if not (starts_with entry.file_name gpiochip)
    then none
    else elim entry.base [
      | none ↦ none
      | some base ↦ elim entry.ngpio [
        | none ↦ none
        | some ngpio ↦ entry_target chips global_gpio entry base ngpio
      ]
    ]

unfoldable pub entry_loop : Option (List Chip) → ℕ → List Entry → Option Target
entry_loop chips global_gpio [] = none
entry_loop chips global_gpio (entry ∷ entries) = elim (try_entry chips global_gpio entry) [
  | none ↦ entry_loop chips global_gpio entries
  | some target ↦ some target
]

-- The outer `none` is the exception of the directory iterator.
unfoldable pub resolve_irq_target_from_global : Board → ℕ → Option (Option Target)
resolve_irq_target_from_global board global_gpio = elim board.directory [
  | none ↦ none
  | some entries ↦ some (entry_loop board.chips global_gpio entries)
]

abbrev pub chip_fits : ℕ → Chip → Bool
chip_fits line_offset chip = not (is_negative line_offset || leb chip.num_lines line_offset)

-- The target for a chip of that name.
abbrev pub offset_target : ℕ → Chip → List ℕ → Target
offset_target line_offset chip name = record {
  chip_name = name;
  chip_label = value_or chip.label [];
  line_offset = line_offset;
  global_gpio = minus_one;
}

unfoldable pub offset_loop : ℕ → Option Target → List Chip → Option Target
offset_loop line_offset fallback [] = fallback
offset_loop line_offset fallback (chip ∷ chips) =
    let skipped = offset_loop line_offset fallback chips in
    if not (chip_fits line_offset chip) then skipped else elim chip.name [
      | none ↦ skipped
      | some name ↦
          let target = offset_target line_offset chip name in
          let kept = if not (has_value fallback) then some target else fallback in
          let rest = offset_loop line_offset kept chips in
          if is_preferred_gpio_chip_label target.chip_label then some target else rest
    ]

unfoldable pub resolve_irq_target_from_offset : Option (List Chip) → ℕ → Option Target
resolve_irq_target_from_offset none line_offset = none
resolve_irq_target_from_offset (some chips) line_offset = offset_loop line_offset none chips

unfoldable pub resolve_irq_target : Board → ℕ → Option (Option Target)
resolve_irq_target board irq_pin =
    if is_negative irq_pin then some none else elim (resolve_irq_target_from_global board irq_pin) [
      | none ↦ none
      | some none ↦ some (resolve_irq_target_from_offset board.chips irq_pin)
      | some (some target) ↦ some (some target)
    ]
