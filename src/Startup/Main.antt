-- ===== src/Startup/Main.antt =====
-- `main` of nerfnet/net/nerfnet_main.cc, from the parsed command line to the call of Run.
use n_rf24_module.Prelude.{ℕ, ◌∷◌, [], List, none, some, if◌then◌else◌}
use n_rf24_module.Irq.{Board}
use n_rf24_module.Irq.Setup.{Gpiod, IrqState}
use n_rf24_module.Pipes.{Pipes, coordinator_pipes, peer_pipes}
use n_rf24_module.Startup.{Outcome, exits, returns, then_do}
use n_rf24_module.Startup.Config.{Options, RadioConfig, configure}
use n_rf24_module.Startup.Tunnel.{System, Flags, set_interface_flags, set_ip_address, open_tunnel}
use n_rf24_module.Startup.Radio.{Rf24, construct, open_pipes}

-- "192.168.10.1" and "192.168.10.2"
abbrev pub default_ip : ℕ → List ℕ
default_ip last =
    b'1' ∷ b'9' ∷ b'2' ∷ b'.' ∷ b'1' ∷ b'6' ∷ b'8' ∷ b'.' ∷ b'1' ∷ b'0' ∷ b'.' ∷ last ∷ []

abbrev pub tunnel_ip : Options → List ℕ
tunnel_ip o = elim o.tunnel_ip [
  | some ip ↦ ip
  | none ↦ if o.primary then default_ip b'1' else if o.secondary then default_ip b'2' else []
]

pub data Role : Type 0 where
  primary secondary : Role

-- What Run starts with.
pub record Launch {W : Type 0} (gpiod : Gpiod W) : Type 0 where
  pub role : Role
  pub tunnel_fd : ℕ
  pub config : RadioConfig
  pub irq : IrqState gpiod

abbrev pub pipes_of : Role → Options → Pipes
pipes_of primary o = coordinator_pipes o.primary_addr o.secondary_addr
pipes_of secondary o = peer_pipes o.primary_addr o.secondary_addr

module _ {W : Type 0} (os : System W) (rf24 : Rf24 W) (gpiod : Gpiod W) (board : Board)
    (o : Options) where
  -- The interface of one of the two roles.
  unfoldable pub start_role : Role → ℕ → RadioConfig → W → Outcome W (Launch gpiod)
  start_role role tunnel_fd config w =
      then_do (construct rf24 gpiod board o.channel config o.irq_pin w) (λ irq w1.
        returns (record { role = role; tunnel_fd = tunnel_fd; config = config; irq = irq })
          (open_pipes rf24 gpiod board (pipes_of role o) w1))

  -- The last `else` is a CHECK that fails.
  unfoldable pub choose_role : ℕ → RadioConfig → W → Outcome W (Launch gpiod)
  choose_role tunnel_fd config w =
      if o.primary
      then start_role primary tunnel_fd config w
      else if o.secondary
      then start_role secondary tunnel_fd config w
      else exits w

  -- From the tunnel on.
  unfoldable pub set_up_tunnel : RadioConfig → W → Outcome W (Launch gpiod)
  set_up_tunnel config w = then_do (open_tunnel os o.interface_name w) (λ fd w1.
      then_do (set_interface_flags os o.interface_name Flags.up w1) (λ done w2.
        then_do (set_ip_address os o.interface_name (tunnel_ip o) o.tunnel_mask w2)
          (λ done w3. choose_role fd config w3)))

  unfoldable pub main : W → Outcome W (Launch gpiod)
  main w = elim (configure o) [ none ↦ exits w | some config ↦ set_up_tunnel config w ]
