-- ===== src/Irq/Setup.antt =====
-- InitializeIrq and CleanupIrq of nerfnet/net/radio_interface.cc over libgpiod, which is a parameter.
use n_rf24_module.Prelude.{ℕ, Bool, true, false, not, List, [], Option, none, some, if◌then◌else◌}
use n_rf24_module.Irq.{minus_one, is_negative, Target, Board}
use n_rf24_module.Irq.Resolve.{resolve_irq_target}

-- The calls on chips and lines; a null pointer is `none`. `C` and `L` are the pointers.
pub record Gpiod (W : Type 0) : Type 1 where
  pub ChipPointer : Type 0
  pub LinePointer : Type 0
  pub chip_open_by_name : List ℕ → W → Option ChipPointer × W
  pub chip_get_line : ChipPointer → ℕ → W → Option LinePointer × W
  -- whether the request succeeds
  pub line_request_falling_edge_events : LinePointer → W → Bool × W
  pub line_release : LinePointer → W → W
  pub chip_close : ChipPointer → W → W

module _ {W : Type 0} (gpiod : Gpiod W) where
  -- The members that the two methods change.
  pub record IrqState : Type 0 where
    pub irq_chip : Option gpiod.ChipPointer
    pub irq_line : Option gpiod.LinePointer
    pub resolved_irq_chip_name : List ℕ
    pub resolved_irq_line_offset : ℕ
    pub resolved_irq_global_gpio : ℕ

  -- What the constructor leaves, and CleanupIrq.
  abbrev pub no_irq : IrqState
  no_irq = record {
    irq_chip = none;
    irq_line = none;
    resolved_irq_chip_name = [];
    resolved_irq_line_offset = 0;
    resolved_irq_global_gpio = minus_one;
  }

  abbrev release_line : IrqState → W → W
  release_line s w = elim s.irq_line [ none ↦ w | some line ↦ gpiod.line_release line w ]

  abbrev close_chip : IrqState → W → W
  close_chip s w = elim s.irq_chip [ none ↦ w | some chip ↦ gpiod.chip_close chip w ]

  unfoldable pub cleanup_irq : IrqState → W → IrqState × W
  cleanup_irq s w = (no_irq, close_chip s (release_line s w))

  -- From the line on.
  unfoldable pub request_line : Target → gpiod.LinePointer → IrqState → W → Bool × IrqState × W
  unfolding cleanup_irq
  request_line target line s w =
      let (granted, w1) = gpiod.line_request_falling_edge_events line w in
      if not granted then (let (s1, w2) = cleanup_irq s w1 in (false, s1, w2)) else (
        true,
        record s {
          resolved_irq_chip_name = target.chip_name;
          resolved_irq_line_offset = target.line_offset;
          resolved_irq_global_gpio = target.global_gpio;
        },
        w1,
      )

  -- From the result of `gpiod_chip_get_line` on.
  unfoldable pub with_line : Target → Option gpiod.LinePointer → IrqState → W → Bool × IrqState × W
  with_line target none s w =
      let (s1, w1) = cleanup_irq (record s { irq_line = none }) w in (false, s1, w1)
  with_line target (some line) s w = request_line target line (record s { irq_line = some line }) w

  -- From the result of `gpiod_chip_open_by_name` on.
  unfoldable pub with_chip : Target → Option gpiod.ChipPointer → IrqState → W → Bool × IrqState × W
  with_chip target none s w = (false, record s { irq_chip = none }, w)
  with_chip target (some chip) s w =
      let (line, w1) = gpiod.chip_get_line chip target.line_offset w in
      with_line target line (record s { irq_chip = some chip }) w1

  -- From the target on.
  unfoldable pub open_target : Target → IrqState → W → Bool × IrqState × W
  open_target target s w =
      let (chip, w1) = gpiod.chip_open_by_name target.chip_name w in with_chip target chip s w1

  -- The flag that is returned, and the new state; `none` is the exception of the directory iterator.
  unfoldable pub initialize_irq : Board → ℕ → IrqState → W → Option (Bool × IrqState × W)
  initialize_irq board irq_pin s w =
      if is_negative irq_pin then some (false, s, w) else elim (resolve_irq_target board irq_pin) [
        | none ↦ none
        | some none ↦ some (false, s, w)
        | some (some target) ↦ some (open_target target s w)
      ]
