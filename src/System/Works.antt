-- ===== src/System/Works.antt =====
-- Every exchange of the coordinator and the peer (nerfnet/net/primary_radio_interface.cc and
-- secondary_radio_interface.cc) in which both frames are heard leaves less to do.
use n_rf24_module.Prelude.{
  ◌+◌, ◌≤◌, ◌≡◌, ◌⊎◌, ◌∙◌, inl, inr, refl, sym, ap, arith, Bool-cases, if◌then◌else◌,
}
use n_rf24_module.Frame.{pending, data_frame}
use n_rf24_module.Coordinator.{CoordinatorState, reset_sync, idle, issue_grant, active_rx}
use n_rf24_module.Coordinator.Choose.{local_has_data}
use n_rf24_module.System.{System, both_heard, exchange}
use n_rf24_module.System.Delivery.{IsLinked}
use n_rf24_module.System.Quiet.{IsQuiet, quiet_type}
use n_rf24_module.System.Outcome.{request, asked, midway-IsLinked, request_taken}
use n_rf24_module.System.Counting.{has_data-queued, no_data-queued}
use n_rf24_module.System.Roles.{choose_grant, apply_grant, apply_revokes, answer_data_type}
use n_rf24_module.System.Drain.{
  theirs, spare, spare_bound, work, after-state, asked-queued, mine-falls, theirs-falls, control,
  data-falls, answer-falls, theirs-stay,
}

-- Less work is left, or none but the exchange that finds nothing.
abbrev pub Works : System → Type 0
Works s = let s' = exchange both_heard s in (work s' ≤ 1) ⊎ (work s' + 1 ≤ work s)

pub state_cases :
    (t : CoordinatorState) → (t ≡ reset_sync) ⊎ ((t ≡ idle) ⊎ ((t ≡ issue_grant) ⊎ (t ≡ active_rx)))
state_cases reset_sync = inl refl
state_cases idle = inr (inl refl)
state_cases issue_grant = inr (inr (inl refl))
state_cases active_rx = inr (inr (inr refl))

module _ (s : System) (g : IsLinked s) (q : IsQuiet s.coordinator) where
  grant-Works : (s.coordinator.state ≡ issue_grant) ⊎ (s.coordinator.state ≡ active_rx) → Works s
  grant-Works h =
      let (type, arg) = choose_grant s.coordinator h in
      let (granted, budget) = apply_grant (request s) s.peer type arg in
      let s' = exchange both_heard s in
      let bound = spare_bound s'.coordinator.state (theirs s') in
      elim (Bool-cases (local_has_data (asked s).radio)) [
        | inl waiting ↦
            let (carries, hint) = answer_data_type (asked s) granted budget waiting in
            let some_left =
              has_data-queued (asked s).radio (midway-IsLinked s g).agree.there_valid waiting in
            let fewer = answer-falls s g carries in
            inr (omega (arith, fewer, bound, mine-falls s g))
        | inr empty ↦
            let nothing = sym (asked-queued s g) ∙ no_data-queued (asked s).radio empty in
            let next : s'.coordinator.state ≡ idle =
              after-state s g
              ∙ ((control s g (inr empty)).1 ∙ ap (λ b. if b then issue_grant else idle) empty) in
            let two : spare s.coordinator.state (theirs s) ≡ 2 = ground (arith, h, nothing) in
            let one : spare s'.coordinator.state (theirs s') ≡ 1 =
              ap (λ t. spare t (theirs s')) next in
            inr (omega (arith, two, one, nothing, theirs-falls s g, mine-falls s g))
      ]

  idle-Works : s.coordinator.state ≡ idle → Works s
  idle-Works i =
      let s' = exchange both_heard s in
      let type = quiet_type s.coordinator i (q i) in
      let now : spare s.coordinator.state (theirs s) ≡ 1 = ap (λ t. spare t (theirs s)) i in
      elim (Bool-cases (local_has_data s.coordinator.radio)) [
        | inl sending ↦
            let carries = type ∙ ap (λ b. if b then data_frame else pending) sending in
            let bound = spare_bound s'.coordinator.state (theirs s') in
            inr (omega (arith, now, bound, data-falls s g carries, theirs-falls s g))
        | inr silent ↦
            let asks = type ∙ ap (λ b. if b then data_frame else pending) silent in
            let held = apply_revokes (request s) s.peer (inl asks) (request_taken s g) in
            let next = after-state s g ∙ (control s g (inl held)).1 in
            elim (Bool-cases (local_has_data (asked s).radio)) [
              | inl waiting ↦
                  let some_left =
                    has_data-queued (asked s).radio (midway-IsLinked s g).agree.there_valid
                      waiting in
                  let same = theirs-stay s g asks held in
                  let grants : s'.coordinator.state ≡ issue_grant =
                    next ∙ ap (λ b. if b then issue_grant else idle) waiting in
                  let positive : 1 ≤ theirs s' = omega (arith, same, asked-queued s g, some_left) in
                  let zero_spare : spare s'.coordinator.state (theirs s') ≡ 0 =
                    ap (λ t. spare t (theirs s')) grants ∙ ground (arith, positive) in
                  inr (omega (arith, now, same, zero_spare, mine-falls s g))
              | inr empty ↦
                  let idles : s'.coordinator.state ≡ idle =
                    next ∙ ap (λ b. if b then issue_grant else idle) empty in
                  let one : spare s'.coordinator.state (theirs s') ≡ 1 =
                    ap (λ t. spare t (theirs s')) idles in
                  inl (
                    omega (
                      arith,
                      one,
                      mine-falls s g,
                      theirs-falls s g,
                      no_data-queued s.coordinator.radio silent,
                      no_data-queued (asked s).radio empty,
                      asked-queued s g,
                    ))
            ]
      ]

  pub exchange-Works : Works s
  exchange-Works = elim (state_cases s.coordinator.state) [
    | inl down ↦ absurd (g.ready down)
    | inr (inl i) ↦ idle-Works i
    | inr (inr h) ↦ grant-Works h
  ]
