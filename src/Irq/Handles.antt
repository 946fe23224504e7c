-- ===== src/Irq/Handles.antt =====
-- What InitializeIrq and CleanupIrq (nerfnet/net/radio_interface.cc) leave open.
use n_rf24_module.Prelude.{
  ℕ, ◌+◌, ◌-◌, ◌≡◌, Bool, true, false, List, none, if◌then◌else◌, has_value,
}
use n_rf24_module.Irq.Setup.{Gpiod, IrqState, cleanup_irq}

-- What libgpiod documents: how many chips and how many requested lines are open. A line that is not
-- requested is released without effect.
pub record Counts {W : Type 0} (gpiod : Gpiod W) : Type 0 where
  pub chips_open : W → ℕ
  pub lines_held : W → ℕ
  pub holds : gpiod.LinePointer → W → Bool
  pub open_chips :
      (name : List ℕ) (w : W)
      → let (chip, w1) = gpiod.chip_open_by_name name w in
        (chips_open w1 ≡ (if has_value chip then chips_open w + 1 else chips_open w))
        × (lines_held w1 ≡ lines_held w)
  pub get_line_same :
      (chip : gpiod.ChipPointer) (offset : ℕ) (w : W)
      → let (line, w1) = gpiod.chip_get_line chip offset w in
        (chips_open w1 ≡ chips_open w) × (lines_held w1 ≡ lines_held w)
  pub request_holds :
      (line : gpiod.LinePointer) (w : W)
      → let (granted, w1) = gpiod.line_request_falling_edge_events line w in
        (chips_open w1 ≡ chips_open w)
        × (lines_held w1 ≡ (if granted then lines_held w + 1 else lines_held w))
        × (holds line w1 ≡ granted)
  pub release_drops :
      (line : gpiod.LinePointer) (w : W)
      → let w1 = gpiod.line_release line w in
        (chips_open w1 ≡ chips_open w)
        × (lines_held w1 ≡ (if holds line w then lines_held w - 1 else lines_held w))
  pub close_chips :
      (chip : gpiod.ChipPointer) (w : W)
      → let w1 = gpiod.chip_close chip w in
        (chips_open w1 ≡ chips_open w - 1) × (lines_held w1 ≡ lines_held w)

module _ {W : Type 0} (gpiod : Gpiod W) (counts : Counts gpiod) where
  open counts use {
    chips_open, lines_held, holds, open_chips, get_line_same, request_holds, release_drops,
    close_chips,
  }

  abbrev pub IsClosed : IrqState gpiod → Type 0
  IsClosed s = (s.irq_chip ≡ none) × (s.irq_line ≡ none)

  -- Nothing more is open than before, and no pointer is left.
  abbrev pub LeavesNothing : W → IrqState gpiod → W → Type 0
  LeavesNothing w s w1 =
      IsClosed s × (chips_open w1 ≡ chips_open w) × (lines_held w1 ≡ lines_held w)

  -- A chip and a line of it are open, and CleanupIrq closes both.
  abbrev pub HoldsBoth : W → IrqState gpiod → W → Type 0
  HoldsBoth w s w1 =
      (has_value s.irq_chip ≡ true)
      × (has_value s.irq_line ≡ true)
      × (chips_open w1 ≡ chips_open w + 1)
      × (lines_held w1 ≡ lines_held w + 1)
      × (let (s2, w2) = cleanup_irq gpiod s w1 in LeavesNothing w s2 w2)

  abbrev pub IsBalanced : W → Bool × IrqState gpiod × W → Type 0
  IsBalanced w (true, s, w1) = HoldsBoth w s w1
  IsBalanced w (false, s, w1) = LeavesNothing w s w1
