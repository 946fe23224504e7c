-- ===== src/Irq/Text.antt =====
-- ToLower and IsPreferredGpioChipLabel of nerfnet/net/radio_interface.cc, and the tests on texts that
-- the code takes from std::string. A text is the list of its bytes.
use n_rf24_module.Prelude.{
  ℕ, ◌+◌, ◌≡◌, refl, Bool, true, false, ◌&&◌, ◌||◌, List, [], ◌∷◌, leb, ◌==◌, if◌then◌else◌, arith,
}

-- `std::tolower` of the "C" locale.
unfoldable pub to_lower_byte : ℕ → ℕ
to_lower_byte c = if leb b'A' c && leb c b'Z' then c + 32 else c

abbrev pub to_lower : List ℕ → List ℕ
to_lower [] = []
to_lower (c ∷ cs) = to_lower_byte c ∷ to_lower cs

abbrev pub text_eq : List ℕ → List ℕ → Bool
text_eq [] [] = true
text_eq [] (d ∷ ds) = false
text_eq (c ∷ cs) [] = false
text_eq (c ∷ cs) (d ∷ ds) = (c == d) && text_eq cs ds

-- `text.rfind(prefix, 0) == 0`
abbrev pub starts_with : List ℕ → List ℕ → Bool
starts_with text [] = true
starts_with [] (d ∷ ds) = false
starts_with (c ∷ cs) (d ∷ ds) = (c == d) && starts_with cs ds

-- `text.find(part) != std::string::npos`
abbrev pub contains : List ℕ → List ℕ → Bool
contains [] part = starts_with [] part
contains (c ∷ cs) part = starts_with (c ∷ cs) part || contains cs part

abbrev pub pinctrl : List ℕ
pinctrl = b'p' ∷ b'i' ∷ b'n' ∷ b'c' ∷ b't' ∷ b'r' ∷ b'l' ∷ []

abbrev pub raspberry : List ℕ
raspberry = b'r' ∷ b'a' ∷ b's' ∷ b'p' ∷ b'b' ∷ b'e' ∷ b'r' ∷ b'r' ∷ b'y' ∷ []

abbrev pub bcm : List ℕ
bcm = b'b' ∷ b'c' ∷ b'm' ∷ []

abbrev pub gpio : List ℕ
gpio = b'g' ∷ b'p' ∷ b'i' ∷ b'o' ∷ []

abbrev pub gpiochip : List ℕ
gpiochip = b'g' ∷ b'p' ∷ b'i' ∷ b'o' ∷ b'c' ∷ b'h' ∷ b'i' ∷ b'p' ∷ []

unfoldable pub is_preferred_gpio_chip_label : List ℕ → Bool
is_preferred_gpio_chip_label label =
    let lower = to_lower label in
    contains lower pinctrl || contains lower raspberry || contains lower bcm || contains lower gpio

pub text_eq-path : (s t : List ℕ) → text_eq s t ≡ true → s ≡ t
text_eq-path [] [] h = refl
text_eq-path [] (d ∷ ds) h = ground arith
text_eq-path (c ∷ cs) [] h = ground arith
text_eq-path (c ∷ cs) (d ∷ ds) h = ground (arith, text_eq-path cs ds)
