-- ===== src/Coordinator/Steps.antt =====
-- What the parts of an iteration of Run keep: ApplyPeerResponse, HandleTransactionFailure and the
-- assignments of Run, of nerfnet/net/primary_radio_interface.cc.
use n_rf24_module.Prelude.{
  ℕ, ◌≡◌, inl, inr, refl, Bool, true, false, not, ◌&&◌, arith, Bool-cases, if◌then◌else◌,
}
use n_rf24_module.Frame.{
  FrameType, pending, grant, data_frame, ack, reset, invalid, other, MacFrame,
}
use n_rf24_module.Frame.Codec.{is_data}
use n_rf24_module.Frame.RoundTrip.{IsByte}
use n_rf24_module.RadioInterface.{RadioInterface}
use n_rf24_module.RadioInterface.Transmit.{commit_ack_locked}
use n_rf24_module.RadioInterface.Assembly.{consume_data_frame_locked}
use n_rf24_module.RadioInterface.Valid
use n_rf24_module.RadioInterface.Valid.{
  IsQueued, commit_ack-IsValid, consume_data-IsValid, reset_link-IsValid,
}
use n_rf24_module.Driver.{Device}
use n_rf24_module.Coordinator.{Coordinator, FailureType, send, timeout, protocol}
use n_rf24_module.Coordinator.Apply.{apply_type, apply_peer_response}
use n_rf24_module.Coordinator.Failure.{count_failure, handle_transaction_failure}
use n_rf24_module.Coordinator.Loop.{recovered, reconnected, back_off}
use n_rf24_module.Coordinator.Valid.{IsValid, StreaksFit, with_link}

apply_type-IsValid :
    (t : FrameType) (c : Coordinator)
    → c.connection_reset_required ≡ false
    → IsValid c
    → IsValid (apply_type t c).1
unfolding apply_type
apply_type-IsValid ack c e v = ground arith
apply_type-IsValid pending c e v = ground arith
apply_type-IsValid data_frame c e v = ground arith
apply_type-IsValid reset c e v = v
apply_type-IsValid grant c e v = v
apply_type-IsValid invalid c e v = v
apply_type-IsValid (other n) c e v = v

streak_step :
    (t : FailureType) (c : Coordinator)
    → StreaksFit false c.send_fail_streak c.timeout_fail_streak
    → StreaksFit true (count_failure t c).send_fail_streak (count_failure t c).timeout_fail_streak
unfolding count_failure
streak_step send c h = omega arith
streak_step timeout c h = omega arith
streak_step protocol c h = omega arith

if_IsValid :
    (b : Bool) (r s : RadioInterface)
    → Valid.IsValid r
    → Valid.IsValid s
    → Valid.IsValid (if b then r else s)
if_IsValid true r s hr hs = hr
if_IsValid false r s hr hs = hs

with_hint :
    (c : Coordinator) (r : RadioInterface) (hint : Bool)
    → Valid.IsValid r
    → IsValid c
    → IsValid (record c { radio = r; peer_has_pending = hint })
with_hint c r hint l v = record {
  link = l;
  matches = v.matches;
  required = v.required;
  backoff = v.backoff;
  streaks = v.streaks;
  burst = v.burst;
}

-- ApplyPeerResponse keeps the invariant outside of ResetSync.
pub apply-IsValid :
    (rx : MacFrame) (c : Coordinator)
    → c.connection_reset_required ≡ false
    → IsByte rx.seq
    → IsValid c
    → IsValid (apply_peer_response rx c).1
unfolding apply_peer_response
apply-IsValid rx c e b v =
    let link = commit_ack-IsValid rx.ack c.radio v.link in
    let link' = consume_data-IsValid rx (commit_ack_locked rx.ack c.radio) b link in
    let consumed = (consume_data_frame_locked rx (commit_ack_locked rx.ack c.radio)).0 in
    elim (Bool-cases (is_data rx.type && not consumed)) [
      | inl refused ↦ rw refused (with_link c _ c.counters c.last_tx_was_data link' v)
      | inr fine ↦ rw fine (
          apply_type-IsValid rx.type _ e
            (with_hint c _ _ (if_IsValid (is_data rx.type) _ _ link' link) v))
    ]

-- HandleTransactionFailure keeps the invariant of a node that is connected.
pub handle-IsValid :
    {W : Type 0} (dev : Device W) (t : FailureType) (c : Coordinator) (w : W)
    → c.disconnected ≡ false
    → IsValid c
    → IsValid (handle_transaction_failure dev t c w).0
unfolding handle_transaction_failure
handle-IsValid dev send c w e v = ground arith
handle-IsValid dev timeout c w e v = ground arith
handle-IsValid dev protocol c w e v = ground arith

pub with_stat_time :
    (c : Coordinator) (t : ℕ) → IsValid c → IsValid (record c { last_stat_print_us = t })
with_stat_time c t v = record {
  link = v.link;
  matches = v.matches;
  required = v.required;
  backoff = v.backoff;
  streaks = v.streaks;
  burst = v.burst;
}

pub with_interval :
    (c : Coordinator) (t : ℕ) → IsValid c → IsValid (record c { current_poll_interval_us = t })
with_interval c t v = record {
  link = v.link;
  matches = v.matches;
  required = v.required;
  backoff = v.backoff;
  streaks = v.streaks;
  burst = v.burst;
}

pub recovered-IsValid : (c : Coordinator) → IsValid c → IsValid (recovered c)
recovered-IsValid c v = record {
  link = v.link;
  matches = v.matches;
  required = inl refl;
  backoff = omega arith;
  streaks = omega arith;
  burst = v.burst;
}

pub reconnected-IsValid : (c : Coordinator) → IsValid c → IsValid (reconnected c)
reconnected-IsValid c v = record {
  link = v.link;
  matches = refl;
  required = inl refl;
  backoff = omega arith;
  streaks = omega arith;
  burst = v.burst;
}

pub back_off-IsValid : (now_us : ℕ) (c : Coordinator) → IsValid c → IsValid (back_off now_us c)
back_off-IsValid now_us c v = record {
  link = v.link;
  matches = v.matches;
  required = v.required;
  backoff = ground (arith, v.backoff);
  streaks = v.streaks;
  burst = v.burst;
}
