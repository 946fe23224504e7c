-- ===== src/Startup/Tunnel.antt =====
-- SetInterfaceFlags, SetIPAddress and OpenTunnel of nerfnet/net/nerfnet_main.cc over the system calls,
-- which are a parameter.
use n_rf24_module.Prelude.{
  ℕ, zero, suc, Bool, true, List, [], ◌∷◌, Option, ◌==◌, if◌then◌else◌, replicate,
}
use n_rf24_module.Startup.{Outcome, returns, check, need}

abbrev pub name_size : ℕ
name_size = 16

-- `strncpy` of the bytes before the first zero into a field of that size.
unfoldable pub strncpy : ℕ → List ℕ → List ℕ
strncpy zero text = []
strncpy (suc n) [] = 0 ∷ strncpy n []
strncpy (suc n) (c ∷ cs) = if c == 0 then replicate (suc n) 0 else c ∷ strncpy n cs

-- `IFF_UP`, and `IFF_TUN | IFF_NO_PI`.
pub data Flags : Type 0 where
  up tun_no_pi : Flags

-- The calls with what they leave; `none` for a descriptor and `false` for a status are negative.
-- Fields of an `ifreq` that the code leaves zero are not passed.
pub record System (W : Type 0) : Type 0 where
  pub socket : W → Option ℕ × W
  pub open_tun : W → Option ℕ × W
  pub close : ℕ → W → W
  pub set_flags : ℕ → List ℕ → Flags → W → Bool × W
  pub set_tun : ℕ → List ℕ → Flags → W → Bool × W
  pub set_address : ℕ → List ℕ → ℕ → W → Bool × W
  pub set_netmask : ℕ → List ℕ → ℕ → W → Bool × W
  -- `inet_pton`: the address, where the text is one
  pub inet_pton : List ℕ → Option ℕ

module _ {W : Type 0} (os : System W) where
  -- The `bool` that is returned stands for `void`.
  unfoldable pub set_interface_flags : List ℕ → Flags → W → Outcome W Bool
  set_interface_flags device_name flags w =
      let (socket_fd, w1) = os.socket w in
      need socket_fd w1 (λ fd w2.
        let (ok, w3) = os.set_flags fd (strncpy name_size device_name) flags w2 in
        check ok w3 (returns true (os.close fd w3)))

  -- From the second `inet_pton` on.
  unfoldable pub set_mask : ℕ → List ℕ → List ℕ → W → Outcome W Bool
  set_mask fd name ip_mask w = need (os.inet_pton ip_mask) w (λ mask w1.
      let (ok, w2) = os.set_netmask fd name mask w1 in check ok w2 (returns true (os.close fd w2)))

  -- From the first `inet_pton` on.
  unfoldable pub set_address_and_mask : ℕ → List ℕ → List ℕ → List ℕ → W → Outcome W Bool
  set_address_and_mask fd name ip ip_mask w = need (os.inet_pton ip) w (λ address w1.
      let (ok, w2) = os.set_address fd name address w1 in check ok w2 (set_mask fd name ip_mask w2))

  unfoldable pub set_ip_address : List ℕ → List ℕ → List ℕ → W → Outcome W Bool
  set_ip_address device_name ip ip_mask w =
      let (socket_fd, w1) = os.socket w in
      need socket_fd w1
        (λ fd w2. set_address_and_mask fd (strncpy name_size device_name) ip ip_mask w2)

  unfoldable pub open_tunnel : List ℕ → W → Outcome W ℕ
  open_tunnel device_name w =
      let (tun_fd, w1) = os.open_tun w in
      need tun_fd w1 (λ fd w2.
        let (ok, w3) = os.set_tun fd (strncpy name_size device_name) Flags.tun_no_pi w2 in
        check ok w3 (returns fd w3))
