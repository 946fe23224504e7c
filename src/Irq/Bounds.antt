-- ===== src/Irq/Bounds.antt =====
-- Where the line that ResolveIrqTarget (nerfnet/net/radio_interface.cc) finds lies: below the number
-- of lines of the entry, or of the chip.
use n_rf24_module.Prelude.{
  ℕ, ◌+◌, ◌-◌, ◌%◌, ◌^◌, ◌<◌, ◌≡◌, ◌⊎◌, inl, inr, ap, sym, ◌∙◌, subst, Bool, true, false, not, ◌||◌,
  List, [], ◌∷◌, Option, none, some, value_or, map_option, first, Any, first-Any, Any-map, arith,
  All, Bool-cases, Option-cases,
}
use n_rf24_module.Irq.{int_lt, minus_one, Target, Chip, Entry, Board}
use n_rf24_module.Irq.Resolve.{
  find_chip_name_by_label_and_lines, entry_target, try_entry, entry_loop,
  resolve_irq_target_from_global, resolve_irq_target_from_offset, resolve_irq_target, has_label,
}
use n_rf24_module.Irq.Resolved.{
  is_usable, is_preferred, target_of, from_offset-first, is_exact, is_labelled, chip_name_of,
  find_chip_name-first,
}

-- The numbers of an entry are 32-bit words.
abbrev pub IsWord : Option ℕ → Type 0
IsWord none = Unit {0}
IsWord (some n) = n < 2 ^ 32

abbrev pub EntryIsValid : Entry → Type 0
EntryIsValid entry = IsWord entry.base × IsWord entry.ngpio

-- A chip of the target's name and of the label.
abbrev pub IsNamed : List ℕ → Target → Chip → Type 0
IsNamed label target chip = (chip.name ≡ some target.chip_name) × (has_label label chip ≡ true)

-- The line lies on such a chip; or no chip of the label has the number of lines that was asked for,
-- and all that is known is that there is a chip of the name.
abbrev pub LiesOn : List Chip → List ℕ → ℕ → Target → Type 0
LiesOn chips label ngpio target =
    Any (λ chip. IsNamed label target chip × (target.line_offset < chip.num_lines)) chips
    ⊎ ((first (is_exact label ngpio) chips ≡ none) × Any (IsNamed label target) chips)

-- The entry's lines hold the pin, and the target counts from its base.
abbrev pub Serves : Option (List Chip) → ℕ → Target → Entry → Type 0
Serves chips pin target entry =
    (base : ℕ) × (ngpio : ℕ) × (entry.base ≡ some base)
    × (entry.ngpio ≡ some ngpio)
    × ((base + target.line_offset) % 2 ^ 32 ≡ pin)
    × (target.line_offset < ngpio)
    × (target.global_gpio ≡ pin)
    × LiesOn (value_or chips []) entry.label ngpio target

-- The chip has a line of that number.
abbrev pub Offers : ℕ → Target → Chip → Type 0
Offers pin target chip =
    (chip.name ≡ some target.chip_name)
    × (target.line_offset ≡ pin)
    × (pin < chip.num_lines)
    × (target.global_gpio ≡ minus_one)

labelled-IsNamed :
    (label : List ℕ) (target : Target) (found chip : Chip)
    → chip_name_of found ≡ target.chip_name
    → chip ≡ found
    → is_labelled label chip ≡ true
    → IsNamed label target chip
labelled-IsNamed label target found chip named same h = elim (Option-cases chip.name) [
  | inl missing ↦ ground arith
  | inr (name, e) ↦
      let is : chip_name_of chip ≡ target.chip_name = ap chip_name_of same ∙ named in
      ground (arith, is)
]

found-LiesOn :
    (chips : List Chip) (label : List ℕ) (ngpio : ℕ) (target : Target)
    → find_chip_name_by_label_and_lines (some chips) label ngpio ≡ some target.chip_name
    → target.line_offset < ngpio
    → LiesOn chips label ngpio target
found-LiesOn chips label ngpio target found below =
    let e = sym (find_chip_name-first label ngpio chips) ∙ found in
    elim (Option-cases (first (is_exact label ngpio) chips)) [
      | inr (chip, exact) ↦
          let named : chip_name_of chip ≡ target.chip_name = ground arith in
          inl (
            Any-map
              (λ c h.
                (labelled-IsNamed label target chip c named (h.0) (ground arith), ground arith))
              chips (first-Any (is_exact label ngpio) chips chip exact))
      | inl none_exact ↦ elim (Option-cases (first (is_labelled label) chips)) [
        | inl none_labelled ↦ ground arith
        | inr (chip, labelled) ↦
            let named : chip_name_of chip ≡ target.chip_name = ground arith in
            inr (
              none_exact,
              Any-map (λ c h. labelled-IsNamed label target chip c named (h.0) (h.1)) chips
                  (first-Any (is_labelled label) chips chip labelled),
            )
      ]
    ]

maybe_found-LiesOn :
    (chips : Option (List Chip)) (label : List ℕ) (ngpio : ℕ) (target : Target)
    → find_chip_name_by_label_and_lines chips label ngpio ≡ some target.chip_name
    → target.line_offset < ngpio
    → LiesOn (value_or chips []) label ngpio target
unfolding find_chip_name_by_label_and_lines
maybe_found-LiesOn none label ngpio target found below = ground arith
maybe_found-LiesOn (some chips) label ngpio target found below =
    found-LiesOn chips label ngpio target found below

line_in_range :
    (pin base ngpio : ℕ)
    → pin < 2 ^ 31
    → base < 2 ^ 32
    → ngpio < 2 ^ 32
    → (int_lt pin base || not (int_lt pin ((base + ngpio) % 2 ^ 32))) ≡ false
    → let offset = (pin + 2 ^ 32 - base) % 2 ^ 32 in
      ((base + offset) % 2 ^ 32 ≡ pin) × (offset < ngpio)
line_in_range pin base ngpio hp hb hn h = ground arith

module _ (chips : Option (List Chip)) (pin : ℕ) (small : pin < 2 ^ 31) where
  entry_target-Serves :
      (entry : Entry) (base ngpio : ℕ) (target : Target)
      → entry.base ≡ some base
      → entry.ngpio ≡ some ngpio
      → base < 2 ^ 32
      → ngpio < 2 ^ 32
      → entry_target chips pin entry base ngpio ≡ some target
      → Serves chips pin target entry
  unfolding entry_target
  entry_target-Serves entry base ngpio target eb en hb hn found =
      elim (Bool-cases (int_lt pin base || not (int_lt pin ((base + ngpio) % 2 ^ 32)))) [
        | inl out ↦ ground arith
        | inr inside ↦
            let range = line_in_range pin base ngpio small hb hn inside in
            elim (Option-cases (find_chip_name_by_label_and_lines chips entry.label ngpio)) [
              | inl missing ↦ ground arith
              | inr (name, named) ↦
                  let same : target ≡ record {
                    chip_name = name;
                    chip_label = entry.label;
                    line_offset = (pin + 2 ^ 32 - base) % 2 ^ 32;
                    global_gpio = pin;
                  } =
                    ground arith in
                  (
                    base,
                    ngpio,
                    eb,
                    en,
                    rw same (range.0),
                    rw same (range.1),
                    ap (λ t. t.global_gpio) same,
                    maybe_found-LiesOn chips entry.label ngpio target
                        (named ∙ sym (ap (λ t. some (t.chip_name)) same)) (rw same (range.1)),
                  )
            ]
      ]

  try_entry-Serves :
      (entry : Entry) (target : Target)
      → EntryIsValid entry
      → try_entry chips pin entry ≡ some target
      → Serves chips pin target entry
  unfolding try_entry
  try_entry-Serves entry target v found = elim (Option-cases entry.base) [
    | inl no_base ↦ ground arith
    | inr (base, eb) ↦ elim (Option-cases entry.ngpio) [
      | inl no_ngpio ↦ ground arith
      | inr (ngpio, en) ↦
          entry_target-Serves entry base ngpio target eb en (subst IsWord eb v.0)
            (subst IsWord en v.1) (ground arith)
    ]
  ]

  entry_loop-Serves :
      (entries : List Entry) (target : Target)
      → All EntryIsValid entries
      → entry_loop chips pin entries ≡ some target
      → Any (Serves chips pin target) entries
  unfolding entry_loop
  entry_loop-Serves [] target v found = ground arith
  entry_loop-Serves (entry ∷ entries) target v found =
      elim (Option-cases (try_entry chips pin entry)) [
        | inl next ↦ inr (entry_loop-Serves entries target v.1 (ground arith))
        | inr (t, here) ↦ inl (try_entry-Serves entry target v.0 (ground arith))
      ]

usable-Offers :
    (pin : ℕ) (target : Target) (chip : Chip)
    → (target_of pin chip ≡ target)
    → is_usable pin chip ≡ true
    → Offers pin target chip
usable-Offers pin target chip e h =
    (ground arith, sym (ap (λ t. t.line_offset) e), ground arith, sym (ap (λ t. t.global_gpio) e))

-- A chip that is found has the target.
first-Offers :
    (pin : ℕ) (p : Chip → Bool) (chips : List Chip) (target : Target)
    → ((c : Chip) → p c ≡ true → is_usable pin c ≡ true)
    → map_option (target_of pin) (first p chips) ≡ some target
    → Any (Offers pin target) chips
first-Offers pin p chips target weaker found = elim (Option-cases (first p chips)) [
  | inl missing ↦ ground arith
  | inr (chip, e) ↦
      let same : target_of pin chip ≡ target = ground arith in
      Any-map (λ c h. usable-Offers pin target c (ap (target_of pin) (h.0) ∙ same) (weaker c h.1))
        chips (first-Any p chips chip e)
]

from_offset-Offers :
    (pin : ℕ) (chips : List Chip) (target : Target)
    → resolve_irq_target_from_offset (some chips) pin ≡ some target
    → Any (Offers pin target) chips
from_offset-Offers pin chips target found =
    let e = sym (from_offset-first pin chips) ∙ found in
    elim (Option-cases (first (is_preferred pin) chips)) [
      | inl none_preferred ↦ first-Offers pin (is_usable pin) chips target (λ c h. h) (ground arith)
      | inr (chip, preferred) ↦
          first-Offers pin (is_preferred pin) chips target (λ c h. ground arith) (ground arith)
    ]

-- A pin below 2 ^ 31 that is resolved is found in one of two ways. It is in the range of an entry of
-- /sys/class/gpio, whose numbers are 32-bit words: the line is counted from the entry's base and below
-- the entry's number of lines, and it lies on a chip of the target's name with the entry's label,
-- below that chip's number of lines, unless no chip of that label has as many lines as the entry; then
-- there still is a chip of that name and label, but it may have fewer lines. Or the pin is the line's
-- own number on a chip of the target's name, and below that chip's number of lines.
pub resolve-Bounds :
    (board : Board) (pin : ℕ) (target : Target)
    → pin < 2 ^ 31
    → All EntryIsValid (value_or board.directory [])
    → resolve_irq_target board pin ≡ some (some target)
    → Any (Serves board.chips pin target) (value_or board.directory [])
      ⊎ Any (Offers pin target) (value_or board.chips [])
unfolding resolve_irq_target resolve_irq_target_from_global resolve_irq_target_from_offset
resolve-Bounds board pin target small v found = elim (Option-cases board.directory) [
  | inl missing ↦ ground arith
  | inr (entries, listed) ↦ elim (Option-cases (entry_loop board.chips pin entries)) [
    | inr (t, here) ↦ inl (
        rw listed
          (entry_loop-Serves board.chips pin small entries target (ground arith) (ground arith)))
    | inl nowhere ↦ elim (Option-cases board.chips) [
      | inl no_chips ↦ ground arith
      | inr (chips, there) ↦ inr (rw there (from_offset-Offers pin chips target (ground arith)))
    ]
  ]
]
