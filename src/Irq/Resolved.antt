-- ===== src/Irq/Resolved.antt =====
-- Which line ResolveIrqTarget (nerfnet/net/radio_interface.cc) finds.
use n_rf24_module.Prelude.{
  ℕ, ◌≡◌, inl, inr, refl, Bool, ◌&&◌, List, [], ◌∷◌, Option, none, some, ◌==◌, has_value, value_or,
  or_else, map_option, first, arith, Option-cases,
}
use n_rf24_module.Irq.{Target, Chip}
use n_rf24_module.Irq.Text.{is_preferred_gpio_chip_label}
use n_rf24_module.Irq.Resolve.{
  has_label, find_chip_loop, find_chip_name_by_label_and_lines, chip_fits, offset_target,
  offset_loop, resolve_irq_target_from_offset,
}

-- A chip with a name and the label.
abbrev pub is_labelled : List ℕ → Chip → Bool
is_labelled label chip = has_value chip.name && has_label label chip

-- Such a chip that has as many lines, too.
abbrev pub is_exact : List ℕ → ℕ → Chip → Bool
is_exact label num_lines chip = is_labelled label chip && (chip.num_lines == num_lines)

abbrev pub chip_name_of : Chip → List ℕ
chip_name_of chip = value_or chip.name []

find_chip_loop-first :
    (label : List ℕ) (n : ℕ) (fallback : Option (List ℕ)) (chips : List Chip)
    → find_chip_loop label n fallback chips
      ≡ or_else
          (map_option chip_name_of (first (is_exact label n) chips))
          (or_else fallback (map_option chip_name_of (first (is_labelled label) chips)))
unfolding find_chip_loop
find_chip_loop-first label n none [] = refl
find_chip_loop-first label n (some f) [] = refl
find_chip_loop-first label n none (c ∷ cs) = elim (Option-cases c.name) [
  | inl missing ↦ simp (missing, find_chip_loop-first label n none cs)
  | inr (name, e) ↦
      ground
        (arith, find_chip_loop-first label n none cs, find_chip_loop-first label n (some name) cs)
]
find_chip_loop-first label n (some f) (c ∷ cs) =
    ground (arith, find_chip_loop-first label n (some f) cs)

-- The chip that is found is the first one of that label and number of lines, else the first one of
-- that label; a chip without a name is passed over.
pub find_chip_name-first :
    (label : List ℕ) (num_lines : ℕ) (chips : List Chip)
    → find_chip_name_by_label_and_lines (some chips) label num_lines
      ≡ map_option chip_name_of
          (or_else (first (is_exact label num_lines) chips) (first (is_labelled label) chips))
unfolding find_chip_name_by_label_and_lines
find_chip_name-first label n chips = ground (arith, find_chip_loop-first label n none chips)

abbrev pub is_usable : ℕ → Chip → Bool
is_usable line_offset chip = chip_fits line_offset chip && has_value chip.name

abbrev pub is_preferred : ℕ → Chip → Bool
is_preferred line_offset chip =
    is_usable line_offset chip && is_preferred_gpio_chip_label (value_or chip.label [])

abbrev pub target_of : ℕ → Chip → Target
target_of line_offset chip = offset_target line_offset chip (chip_name_of chip)

offset_loop-first :
    (n : ℕ) (fallback : Option Target) (chips : List Chip)
    → offset_loop n fallback chips
      ≡ or_else
          (map_option (target_of n) (first (is_preferred n) chips))
          (or_else fallback (map_option (target_of n) (first (is_usable n) chips)))
unfolding offset_loop
offset_loop-first n none [] = refl
offset_loop-first n (some f) [] = refl
offset_loop-first n none (c ∷ cs) = elim (Option-cases c.name) [
  | inl missing ↦ ground (arith, offset_loop-first n none cs)
  | inr (name, e) ↦
      ground
        (arith, offset_loop-first n none cs, offset_loop-first n (some (offset_target n c name)) cs)
]
offset_loop-first n (some f) (c ∷ cs) = ground (arith, offset_loop-first n (some f) cs)

-- Of the chips with a name and more lines than the offset, the first one with a preferred label is
-- taken, else the first one.
pub from_offset-first :
    (line_offset : ℕ) (chips : List Chip)
    → resolve_irq_target_from_offset (some chips) line_offset
      ≡ map_option
          (target_of line_offset)
          (or_else (first (is_preferred line_offset) chips) (first (is_usable line_offset) chips))
unfolding resolve_irq_target_from_offset
from_offset-first n chips = ground (arith, offset_loop-first n none chips)
