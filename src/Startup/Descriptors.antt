-- ===== src/Startup/Descriptors.antt =====
-- The descriptors that SetInterfaceFlags, SetIPAddress and OpenTunnel (nerfnet/net/nerfnet_main.cc)
-- leave open.
use n_rf24_module.Prelude.{
  ℕ, ◌+◌, ◌-◌, ◌≡◌, ◌∙◌, refl, Bool, true, false, List, Option, none, some, if◌then◌else◌,
  has_value, arith,
}
use n_rf24_module.Startup.{Outcome, exits, throws, returns, check, need}
use n_rf24_module.Startup.Tunnel.{
  System, Flags, strncpy, name_size, set_mask, set_address_and_mask, set_interface_flags,
  set_ip_address, open_tunnel,
}

-- How many descriptors are open, as the system calls document it.
pub record Descriptors {W : Type 0} (os : System W) : Type 0 where
  pub open_count : W → ℕ
  pub socket_opens :
      (w : W)
      → let (fd, w1) = os.socket w in
        open_count w1 ≡ (if has_value fd then open_count w + 1 else open_count w)
  pub open_tun_opens :
      (w : W)
      → let (fd, w1) = os.open_tun w in
        open_count w1 ≡ (if has_value fd then open_count w + 1 else open_count w)
  pub close_closes : (fd : ℕ) (w : W) → open_count (os.close fd w) ≡ open_count w - 1
  pub set_flags_same :
      (fd : ℕ) (name : List ℕ) (f : Flags) (w : W)
      → open_count (os.set_flags fd name f w).1 ≡ open_count w
  pub set_tun_same :
      (fd : ℕ) (name : List ℕ) (f : Flags) (w : W)
      → open_count (os.set_tun fd name f w).1 ≡ open_count w
  pub set_address_same :
      (fd : ℕ) (name : List ℕ) (a : ℕ) (w : W)
      → open_count (os.set_address fd name a w).1 ≡ open_count w
  pub set_netmask_same :
      (fd : ℕ) (name : List ℕ) (a : ℕ) (w : W)
      → open_count (os.set_netmask fd name a w).1 ≡ open_count w

module _ {W : Type 0} (os : System W) (d : Descriptors os) where
  open d use {
    open_count, socket_opens, open_tun_opens, close_closes, set_flags_same, set_tun_same,
    set_address_same, set_netmask_same,
  }

  -- A call that exits, or returns with so many descriptors open; the code throws nothing here.
  abbrev pub Leaves : {A : Type 0} → ℕ → Outcome W A → Type 0
  Leaves n (exits w) = Unit {0}
  Leaves n throws = ⊥
  Leaves n (returns a w) = open_count w ≡ n

  need-Leaves :
      {A B : Type 0} (n : ℕ) (found : Option A) (w : W) (f : A → W → Outcome W B)
      → ((a : A) → found ≡ some a → Leaves n (f a w))
      → Leaves n (need found w f)
  need-Leaves n none w f h = tt
  need-Leaves n (some a) w f h = h a refl

  opened :
      (n m fd : ℕ) (found : Option ℕ)
      → m ≡ (if has_value found then n + 1 else n)
      → found ≡ some fd
      → m ≡ n + 1
  opened n m fd found e h = ground arith

  check-Leaves :
      {A : Type 0} (n : ℕ) (ok : Bool) (w : W) (rest : Outcome W A)
      → Leaves n rest
      → Leaves n (check ok w rest)
  check-Leaves n true w rest h = h
  check-Leaves n false w rest h = tt

  closed : (n fd : ℕ) (w : W) → open_count w ≡ n + 1 → open_count (os.close fd w) ≡ n
  closed n fd w h = omega (arith, h, close_closes fd w)

  set_interface_flags-Leaves :
      (name : List ℕ) (f : Flags) (w : W) → Leaves (open_count w) (set_interface_flags os name f w)
  unfolding set_interface_flags
  set_interface_flags-Leaves name f w =
      let (socket_fd, w1) = os.socket w in
      need-Leaves (open_count w) socket_fd w1 _ (λ fd e.
        let (ok, w2) = os.set_flags fd (strncpy name_size name) f w1 in
        let one_more = opened (open_count w) (open_count w1) fd socket_fd (socket_opens w) e in
        check-Leaves (open_count w) ok w2 _ (
          closed (open_count w) fd w2 (set_flags_same fd (strncpy name_size name) f w1 ∙ one_more)))

  set_mask-Leaves :
      (n fd : ℕ) (name ip_mask : List ℕ) (w : W)
      → open_count w ≡ n + 1
      → Leaves n (set_mask os fd name ip_mask w)
  unfolding set_mask
  set_mask-Leaves n fd name ip_mask w h = need-Leaves n (os.inet_pton ip_mask) w _ (λ mask e.
      let (ok, w1) = os.set_netmask fd name mask w in
      check-Leaves n ok w1 _ (closed n fd w1 (set_netmask_same fd name mask w ∙ h)))

  set_ip_address-Leaves :
      (name ip ip_mask : List ℕ) (w : W)
      → Leaves (open_count w) (set_ip_address os name ip ip_mask w)
  unfolding set_ip_address set_address_and_mask
  set_ip_address-Leaves name ip ip_mask w =
      let (socket_fd, w1) = os.socket w in
      let field = strncpy name_size name in
      need-Leaves (open_count w) socket_fd w1 _ (λ fd e.
        let one_more = opened (open_count w) (open_count w1) fd socket_fd (socket_opens w) e in
        need-Leaves (open_count w) (os.inet_pton ip) w1 _ (λ address found.
          let (ok, w2) = os.set_address fd field address w1 in
          check-Leaves (open_count w) ok w2 _ (
            set_mask-Leaves (open_count w) fd field ip_mask w2
              (set_address_same fd field address w1 ∙ one_more))))

  open_tunnel-Leaves : (name : List ℕ) (w : W) → Leaves (open_count w + 1) (open_tunnel os name w)
  unfolding open_tunnel
  open_tunnel-Leaves name w =
      let (tun_fd, w1) = os.open_tun w in
      let field = strncpy name_size name in
      need-Leaves (open_count w + 1) tun_fd w1 _ (λ fd e.
        let (ok, w2) = os.set_tun fd field Flags.tun_no_pi w1 in
        check-Leaves (open_count w + 1) ok w2 _ (
          set_tun_same fd field Flags.tun_no_pi w1
          ∙ opened (open_count w) (open_count w1) fd tun_fd (open_tun_opens w) e))

  -- Each call exits or returns, and throws nothing. Where OpenTunnel returns, it has opened one
  -- descriptor; SetInterfaceFlags and SetIPAddress return with as many open as before. The system
  -- calls count as documented.
  pub tunnel-Leaves :
      (name ip ip_mask : List ℕ) (f : Flags) (w : W)
      → Leaves (open_count w + 1) (open_tunnel os name w)
        × Leaves (open_count w) (set_interface_flags os name f w)
        × Leaves (open_count w) (set_ip_address os name ip ip_mask w)
  tunnel-Leaves name ip ip_mask f w = (
    open_tunnel-Leaves name w,
    set_interface_flags-Leaves name f w,
    set_ip_address-Leaves name ip ip_mask w,
  )
