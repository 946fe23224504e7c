-- ===== src/Pipes.antt =====
-- The pipe addresses that the constructors of nerfnet/net/primary_radio_interface.cc and
-- nerfnet/net/secondary_radio_interface.cc hand to the radio.
use n_rf24_module.Prelude.{
  ℕ, ◌+◌, ◌*◌, ◌/◌, ◌^◌, ◌≡◌, ◌≢◌, refl, ap, ◌∙◌, sym, List, [], ◌∷◌, arith, u8, get_or, take, ◌↔◌,
  ◌%◌,
}

-- The five bytes of an address, the least significant one first.
abbrev pub pipe_address : ℕ → List ℕ
pipe_address addr = u8 addr ∷ u8 (addr / 2 ^ 8) ∷ u8 (addr / 2 ^ 16) ∷ u8 (addr / 2 ^ 24) ∷ 0 ∷ []

pub record Pipes : Type 0 where
  pub writing : List ℕ
  pub reading : List ℕ

unfoldable pub coordinator_pipes : ℕ → ℕ → Pipes
coordinator_pipes primary_addr secondary_addr = record {
  writing = pipe_address primary_addr;
  reading = pipe_address secondary_addr;
}

unfoldable pub peer_pipes : ℕ → ℕ → Pipes
peer_pipes primary_addr secondary_addr = record {
  writing = pipe_address secondary_addr;
  reading = pipe_address primary_addr;
}

abbrev from_pipe : List ℕ → ℕ
from_pipe p = get_or p 0 0 + get_or p 1 0 * 2 ^ 8 + get_or p 2 0 * 2 ^ 16 + get_or p 3 0 * 2 ^ 24

-- `radio_.setAddressWidth(3)`
abbrev pub address_width : ℕ
address_width = 3

low_bytes : (a : ℕ) → a % 2 ^ 24 ≡ from_pipe (take address_width (pipe_address a))
low_bytes a = omega arith

-- Of the five bytes the radio uses as many as the address width that the code sets, which is three:
-- two addresses are the same on the air exactly when they agree modulo 2 ^ 24, so the high byte of
-- the 32-bit option never tells two networks apart.
pub pipes-on_air :
    (a b : ℕ)
    → (take address_width (pipe_address a) ≡ take address_width (pipe_address b))
      ↔ (a % 2 ^ 24 ≡ b % 2 ^ 24)
pipes-on_air a b = (
  (λ e. low_bytes a ∙ (ap from_pipe e ∙ sym (low_bytes b))),
  (λ e.
      let b0 : u8 a ≡ u8 b = omega (arith, e) in
      let b1 : u8 (a / 2 ^ 8) ≡ u8 (b / 2 ^ 8) = omega (arith, e) in
      let b2 : u8 (a / 2 ^ 16) ≡ u8 (b / 2 ^ 16) = omega (arith, e) in cc (b0, b1, b2)),
)

-- The address as the radio uses it.
abbrev pub used_bytes : List ℕ → List ℕ
used_bytes pipe = take address_width pipe

-- Two nodes that are started with the same two addresses listen where the other one writes. A node
-- does not listen where it writes itself exactly when the addresses differ modulo 2 ^ 24, since the
-- radio uses three bytes of an address.
pub pipes-cross :
    (primary secondary : ℕ)
    → let c = coordinator_pipes primary secondary in
      let p = peer_pipes primary secondary in
      (used_bytes c.writing ≡ used_bytes p.reading)
      × (used_bytes p.writing ≡ used_bytes c.reading)
      × ((used_bytes c.writing ≢ used_bytes c.reading) ↔ (primary % 2 ^ 24 ≢ secondary % 2 ^ 24))
      × ((used_bytes p.writing ≢ used_bytes p.reading) ↔ (primary % 2 ^ 24 ≢ secondary % 2 ^ 24))
unfolding coordinator_pipes peer_pipes
pipes-cross a b =
    let (there, back) = pipes-on_air a b in
    (
      refl,
      refl,
      ((λ h e. h (back e)), (λ h e. h (there e))),
      ((λ h e. h (sym (back e))), (λ h e. h (there (sym e)))),
    )
