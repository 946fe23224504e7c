-- ===== src/Startup/Launches.antt =====
-- When `main` (nerfnet/net/nerfnet_main.cc) gets as far as Run, and with what.
use n_rf24_module.Prelude.{
  ℕ, ◌<◌, ◌≡◌, ◌⊎◌, inl, inr, refl, sym, subst, Bool, true, false, List, none, some, arith, ltb,
  Bool-cases, Option-cases, if-preserves, ltb→lt,
}
use n_rf24_module.Irq.{Board, is_negative}
use n_rf24_module.Irq.Resolve.{resolve_irq_target, resolve_irq_target_from_global}
use n_rf24_module.Irq.Setup.{Gpiod, initialize_irq}
use n_rf24_module.Startup.{Outcome, exits, throws, returns, check, then_do}
use n_rf24_module.Startup.Config.{Options, RadioConfig, configure}
use n_rf24_module.Startup.Parsing.{Describes, configure_iff}
use n_rf24_module.Startup.Tunnel.{
  System, Flags, set_mask, set_address_and_mask, set_interface_flags, set_ip_address, open_tunnel,
}
use n_rf24_module.Startup.Radio.{Rf24, set_up_radio, set_up_irq, construct}
use n_rf24_module.Startup.Main.{
  Role, primary, secondary, Launch, tunnel_ip, start_role, choose_role, set_up_tunnel, main,
}

-- What a returned value satisfies, and when an exception may end the program.
abbrev pub Yields : {W A : Type 0} → Type 0 → (A → Type 0) → Outcome W A → Type 0
Yields T P (exits w) = Unit {0}
Yields T P throws = T
Yields T P (returns a w) = P a

then_do-Yields :
    {W A B : Type 0} (T : Type 0) (P : A → Type 0) (Q : B → Type 0) (out : Outcome W A)
    (f : A → W → Outcome W B)
    → Yields T P out
    → ((a : A) (w : W) → P a → Yields T Q (f a w))
    → Yields T Q (then_do out f)
then_do-Yields T P Q (exits w) f h k = tt
then_do-Yields T P Q throws f h k = h
then_do-Yields T P Q (returns a w) f h k = k a w h

check-Yields :
    {W A : Type 0} (T : Type 0) (P : A → Type 0) (ok : Bool) (w : W) (rest : Outcome W A)
    → (ok ≡ true → Yields T P rest)
    → Yields T P (check ok w rest)
check-Yields T P true w rest h = h refl
check-Yields T P false w rest h = tt

-- The role that the switches ask for; with both, the primary one.
abbrev pub RoleFits : Options → Role → Type 0
RoleFits o primary = o.primary ≡ true
RoleFits o secondary = (o.primary ≡ false) × (o.secondary ≡ true)

module _ {W : Type 0} (os : System W) (rf24 : Rf24 W) (gpiod : Gpiod W) (board : Board)
    (o : Options) where
  -- When the directory iterator throws.
  abbrev pub Throws : Type 0
  Throws = (is_negative o.irq_pin ≡ false) × (board.directory ≡ none)

  abbrev pub IsLaunch : Launch gpiod → Type 0
  IsLaunch l = Describes o l.config × RoleFits o l.role × (o.channel < 128)

  abbrev pub LaunchYields : Outcome W (Launch gpiod) → Type 0
  LaunchYields = Yields Throws IsLaunch

  set_up_irq-Yields :
      (X : Type 0) (w : W) → X → Yields Throws (λ i. X) (set_up_irq rf24 gpiod board o.irq_pin w)
  unfolding set_up_irq initialize_irq resolve_irq_target resolve_irq_target_from_global
  set_up_irq-Yields X w x = elim (Bool-cases (is_negative o.irq_pin)) [
    | inl unset ↦ rw unset x
    | inr used ↦ elim (Option-cases board.directory) [
      | inl missing ↦ rw (used, missing) (refl, refl)
      | inr (entries, listed) ↦ ground arith
    ]
  ]

  construct-Yields :
      (config : RadioConfig) (w : W)
      → Yields Throws
          (λ i. o.channel < 128)
          (construct rf24 gpiod board o.channel config o.irq_pin w)
  unfolding construct
  construct-Yields config w = check-Yields Throws _ (ltb o.channel 128) w _ (λ fits.
      let (begun, w1) = rf24.begin_radio w in
      check-Yields Throws _ begun w1 _ (λ b.
        let (connected, w2) =
          rf24.is_chip_connected (set_up_radio rf24 gpiod board o.channel config w1) in
        check-Yields Throws _ connected w2 _
          (λ c. set_up_irq-Yields (o.channel < 128) w2 (ltb→lt o.channel 128 fits))))

  start_role-Yields :
      (role : Role) (fd : ℕ) (config : RadioConfig) (w : W)
      → RoleFits o role
      → Describes o config
      → Yields Throws IsLaunch (start_role os rf24 gpiod board o role fd config w)
  unfolding start_role
  start_role-Yields role fd config w r d =
      then_do-Yields Throws (λ i. o.channel < 128) IsLaunch
        (construct rf24 gpiod board o.channel config o.irq_pin w) _ (construct-Yields config w)
        (λ irq w1 fits. (d, r, fits))

  choose_role-Yields :
      (fd : ℕ) (config : RadioConfig) (w : W)
      → Describes o config
      → Yields Throws IsLaunch (choose_role os rf24 gpiod board o fd config w)
  unfolding choose_role
  choose_role-Yields fd config w d =
      if-preserves LaunchYields o.primary
        (λ yes_primary. start_role-Yields primary fd config w yes_primary d)
        (λ not_primary.
          if-preserves LaunchYields o.secondary
            (λ yes_secondary.
              start_role-Yields secondary fd config w (not_primary, yes_secondary) d)
            (λ neither. tt))

  -- The calls on the tunnel throw nothing.
  quiet_open : (name : List ℕ) (w : W) → Yields Throws (λ fd. Unit {0}) (open_tunnel os name w)
  unfolding open_tunnel
  quiet_open name w = ground arith

  quiet_flags :
      (name : List ℕ) (f : Flags) (w : W)
      → Yields Throws (λ done. Unit {0}) (set_interface_flags os name f w)
  unfolding set_interface_flags
  quiet_flags name f w = ground arith

  quiet_address :
      (name ip mask : List ℕ) (w : W)
      → Yields Throws (λ done. Unit {0}) (set_ip_address os name ip mask w)
  unfolding set_ip_address set_address_and_mask set_mask
  quiet_address name ip mask w = ground arith

  set_up_tunnel-Yields :
      (config : RadioConfig) (w : W)
      → Describes o config
      → LaunchYields (set_up_tunnel os rf24 gpiod board o config w)
  unfolding set_up_tunnel
  set_up_tunnel-Yields config w d =
      then_do-Yields Throws (λ fd. Unit {0}) IsLaunch (open_tunnel os o.interface_name w) _
        (quiet_open o.interface_name w)
        (λ fd w1 u.
          then_do-Yields Throws (λ done. Unit {0}) IsLaunch
            (set_interface_flags os o.interface_name Flags.up w1) _
            (quiet_flags o.interface_name Flags.up w1)
            (λ done w2 u2.
              then_do-Yields Throws (λ done2. Unit {0}) IsLaunch
                (set_ip_address os o.interface_name (tunnel_ip o) o.tunnel_mask w2) _
                (quiet_address o.interface_name (tunnel_ip o) o.tunnel_mask w2)
                (λ done2 w3 u3. choose_role-Yields fd config w3 d)))

  main_refused : (w : W) → configure o ≡ none → main os rf24 gpiod board o w ≡ exits w
  unfolding main
  main_refused w h = ground (arith, h)

  main_accepted :
      (c : RadioConfig) (w : W)
      → configure o ≡ some c
      → main os rf24 gpiod board o w ≡ set_up_tunnel os rf24 gpiod board o c w
  unfolding main
  main_accepted c w h = ground (arith, h)

  -- Whatever the system calls, the radio and libgpiod answer: with options that describe no
  -- configuration, `main` exits before it calls any of them. With others it exits at a failed CHECK,
  -- or throws, which takes a pin that is not negative and a missing /sys/class/gpio, or gets to Run
  -- with the configuration that the options describe, with the role that the switches ask for, and on
  -- a channel below 128.
  pub main-Launches :
      (w : W)
      → ((c : RadioConfig) × Describes o c × LaunchYields (main os rf24 gpiod board o w))
        ⊎ (((c : RadioConfig) → ¬ Describes o c) × (main os rf24 gpiod board o w ≡ exits w))
  main-Launches w = elim (Option-cases (configure o)) [
    | inl refused ↦
        inr ((λ c d. ground (arith, refused, configure_iff o c)), main_refused w refused)
    | inr (c, accepted) ↦
        let d = (configure_iff o c).0 accepted in
        inl
          (c, d, subst LaunchYields (sym (main_accepted c w accepted)) (set_up_tunnel-Yields c w d))
  ]
