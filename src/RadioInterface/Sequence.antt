-- ===== src/RadioInterface/Sequence.antt =====
-- Sequence numbers: NextSeq, AdvanceTxSeq, IsExpectedRxSeq of nerfnet/net/radio_interface.cc.
use n_rf24_module.Prelude.{
  ℕ, zero, suc, ◌+◌, ◌%◌, ◌≤◌, ◌<◌, ◌≡◌, ◌≢◌, ◌⊎◌, Bool, true, false, ◌||◌, none, some, arith, ltb,
  leb, ◌==◌, if◌then◌else◌, u8,
}
use n_rf24_module.RadioInterface.{RadioInterface, max_seq}

unfoldable pub next_seq : ℕ → ℕ
next_seq seq = if seq == 0 || leb max_seq seq then 1 else u8 (seq + 1)

unfoldable pub advance_tx_seq : RadioInterface → RadioInterface
advance_tx_seq r =
    let n = u8 (r.next_tx_seq + 1) in
    if n == 0 || ltb max_seq n then record r { next_tx_seq = 1 } else record r { next_tx_seq = n }

unfoldable pub is_expected_rx_seq : RadioInterface → ℕ → Bool
unfolding next_seq
is_expected_rx_seq r seq =
    if seq == 0
    then false
    else elim r.last_rx_seq [ none ↦ true | some last ↦ seq == next_seq last ]

-- The numbers that DATA frames carry.
abbrev pub IsSeq : ℕ → Type 0
IsSeq s = (1 ≤ s) × (s ≤ max_seq)

pub next_seq-IsSeq : (s : ℕ) → IsSeq (next_seq s)
unfolding next_seq
next_seq-IsSeq s = ground arith

pub next_seq-ne : (s : ℕ) → next_seq s ≢ s
unfolding next_seq
next_seq-ne s = ground arith

-- AdvanceTxSeq moves the sender's number as NextSeq moves the receiver's.
pub advance_tx_seq-eq :
    (r : RadioInterface)
    → IsSeq r.next_tx_seq
    → advance_tx_seq r ≡ record r { next_tx_seq = next_seq r.next_tx_seq }
unfolding advance_tx_seq next_seq
advance_tx_seq-eq r h = ground arith

next_seq-cases :
    (s : ℕ) → IsSeq s → ((s ≡ max_seq) × (next_seq s ≡ 1)) ⊎ ((s < max_seq) × (next_seq s ≡ s + 1))
unfolding next_seq
next_seq-cases s h = ground arith

-- `n` steps of NextSeq.
nth_seq : ℕ → ℕ → ℕ
nth_seq zero s = s
nth_seq (suc n) s = nth_seq n (next_seq s)

-- The numbers 1 to 31 go round: from a number in that range, `n` steps of NextSeq lead `n` places
-- on, modulo 31.
nth_seq_closed : (n s : ℕ) → IsSeq s → nth_seq n s ≡ (s + n + 30) % max_seq + 1
unfolding nth_seq
nth_seq_closed zero s h = omega arith
nth_seq_closed (suc n) s h =
    omega (arith, next_seq-cases s h, nth_seq_closed n (next_seq s) (next_seq-IsSeq s))
