-- ===== src/Web/Rtc.antt =====
-- rust/apps/web/src/rtc_transition.rs: the transitions of one peer's connection. Each returns the model
-- that it leaves and its result.
use p2p_transmission.Prelude.{
  ℕ, ◌+◌, min, Bool, true, false, not, ◌==◌, ◌&&◌, if◌then◌else◌, Option, none, some,
}
use p2p_transmission.Prelude.Text.{Text}
use p2p_transmission.OrdMap.Map.{get, insert}
use p2p_transmission.OrdMap.Order.{text_order}
use p2p_transmission.Web.State.{
  RtcPhase, waiting_peer, connecting, ready, failed, owner_offer_timeout, owner_retry_delay,
  passive_deadline, disconnected_deadline, PeerRtcState, begin_recovery, finish_recovery,
  TransferLinkState, link_ready, link_waiting, link_paused, TransferState, active,
}
use p2p_transmission.Web.Model.{AppModel}
use p2p_transmission.Web.Work.{RtcWorkToken, arm_work, invalidate_work, work_is_current}
use p2p_transmission.Web.Aggregate.{
  refresh_aggregate_rtc, clear_peer_rtc_error, set_peer_transfer_link_state,
}

pub data OwnerTimeoutStep : Type 0 where
  ignore_timeout : OwnerTimeoutStep
  retry : RtcWorkToken → ℕ → ℕ → OwnerTimeoutStep
  timeout_failed : Bool → OwnerTimeoutStep

pub data PassiveDeadlineStep : Type 0 where
  ignore_deadline : PassiveDeadlineStep
  deadline_failed : Bool → PassiveDeadlineStep

pub data RtcRecoveryAction : Type 0 where
  no_action restart_offer arm_passive_deadline : RtcRecoveryAction
  wait_for_reconnect : RtcWorkToken → RtcRecoveryAction

-- What `get_mut` leaves when the caller has changed the entry.
abbrev pub set_peer : AppModel → Text → PeerRtcState → AppModel
set_peer model peer_id peer = record model {
  rtc_peer_states = insert peer_id peer model.rtc_peer_states;
}

abbrev pub find_peer : AppModel → Text → Option PeerRtcState
find_peer model peer_id = get peer_id model.rtc_peer_states

unfoldable pub begin_outgoing_recovery : AppModel → Text → AppModel × Option ℕ
begin_outgoing_recovery model peer_id = elim (find_peer model peer_id) [
  | none ↦ (model, none)
  | some peer ↦ let begun = begin_recovery peer in (set_peer model peer_id begun.0, begun.1)
]

unfoldable pub finish_outgoing_recovery : AppModel → Text → ℕ → AppModel × Bool
finish_outgoing_recovery model peer_id instance = elim (find_peer model peer_id) [
  | none ↦ (model, false)
  | some peer ↦
      let finished = finish_recovery peer instance in
      (set_peer model peer_id finished.0, finished.1)
]

unfoldable pub offer_from :
    AppModel → Text → ℕ → ℕ → Option PeerRtcState → AppModel × Option RtcWorkToken
offer_from model peer_id instance attempt none = (model, none)
offer_from model peer_id instance attempt (some peer) =
    if not (peer.instance_generation == instance)
    then (model, none)
    else let armed = arm_work peer (owner_offer_timeout attempt) in
      let placed = set_peer model peer_id (record armed.0 { phase = connecting }) in
      let linked =
        set_peer_transfer_link_state (clear_peer_rtc_error placed peer_id) peer_id link_waiting in
      (refresh_aggregate_rtc linked.0, some armed.1)

unfoldable pub begin_owner_offer : AppModel → Text → ℕ → ℕ → AppModel × Option RtcWorkToken
begin_owner_offer model peer_id instance attempt =
    offer_from model peer_id instance attempt (find_peer model peer_id)

-- The peer fails: its work is void, its streamed transfer pauses.
unfoldable pub fail_peer : AppModel → Text → PeerRtcState → AppModel × Bool
fail_peer model peer_id peer =
    let placed = set_peer model peer_id (record (invalidate_work peer) { phase = failed }) in
    let linked = set_peer_transfer_link_state placed peer_id link_paused in
    (refresh_aggregate_rtc linked.0, linked.1)

-- `attempt.saturating_add(1)` on u8.
abbrev pub next_attempt : ℕ → ℕ
next_attempt attempt = min (attempt + 1) 255

unfoldable pub timeout_step :
    AppModel → Text → ℕ → PeerRtcState → Option ℕ → AppModel × OwnerTimeoutStep
timeout_step model peer_id attempt peer none =
    let lost = fail_peer model peer_id peer in (lost.0, timeout_failed lost.1)
timeout_step model peer_id attempt peer (some delay_ms) =
    let armed = arm_work peer (owner_retry_delay (next_attempt attempt)) in
    (set_peer model peer_id armed.0, retry armed.1 (next_attempt attempt) delay_ms)

unfoldable pub advance_from :
    AppModel
    → Text
    → RtcWorkToken
    → ℕ
    → Option ℕ
    → Option PeerRtcState
    → AppModel × OwnerTimeoutStep
advance_from model peer_id token attempt delay none = (model, ignore_timeout)
advance_from model peer_id token attempt delay (some peer) =
    if not (work_is_current peer token (owner_offer_timeout attempt))
    then (model, ignore_timeout)
    else timeout_step model peer_id attempt peer delay

unfoldable pub advance_owner_timeout :
    AppModel → Text → RtcWorkToken → ℕ → Option ℕ → AppModel × OwnerTimeoutStep
advance_owner_timeout model peer_id token attempt retry_delay_ms =
    advance_from model peer_id token attempt retry_delay_ms (find_peer model peer_id)

unfoldable pub claim_retry_from :
    AppModel → Text → RtcWorkToken → ℕ → Option PeerRtcState → AppModel × Bool
claim_retry_from model peer_id token attempt none = (model, false)
claim_retry_from model peer_id token attempt (some peer) =
    if not (work_is_current peer token (owner_retry_delay attempt))
    then (model, false)
    else (set_peer model peer_id (record peer { pending_work = none }), true)

unfoldable pub claim_owner_retry : AppModel → Text → RtcWorkToken → ℕ → AppModel × Bool
claim_owner_retry model peer_id token attempt =
    claim_retry_from model peer_id token attempt (find_peer model peer_id)

unfoldable pub mark_peer_start_failed : AppModel → Text → ℕ → AppModel × Option Bool
mark_peer_start_failed model peer_id instance = elim (find_peer model peer_id) [
  | none ↦ (model, none)
  | some peer ↦
      if not (peer.instance_generation == instance)
      then (model, none)
      else let lost = fail_peer model peer_id peer in (lost.0, some lost.1)
]

unfoldable pub begin_passive_deadline : AppModel → Text → AppModel × Option RtcWorkToken
begin_passive_deadline model peer_id = elim (find_peer model peer_id) [
  | none ↦ (model, none)
  | some peer ↦
      let armed = arm_work peer passive_deadline in
      let placed = set_peer model peer_id (record armed.0 { phase = connecting }) in
      (refresh_aggregate_rtc (clear_peer_rtc_error placed peer_id), some armed.1)
]

unfoldable pub claim_disconnected_deadline : AppModel → Text → RtcWorkToken → AppModel × Bool
claim_disconnected_deadline model peer_id token = elim (find_peer model peer_id) [
  | none ↦ (model, false)
  | some peer ↦
      if not (work_is_current peer token disconnected_deadline)
      then (model, false)
      else (set_peer model peer_id (invalidate_work peer), true)
]

unfoldable pub claim_passive_deadline :
    AppModel → Text → RtcWorkToken → AppModel × PassiveDeadlineStep
claim_passive_deadline model peer_id token = elim (find_peer model peer_id) [
  | none ↦ (model, ignore_deadline)
  | some peer ↦
      if not (work_is_current peer token passive_deadline)
      then (model, ignore_deadline)
      else let lost = fail_peer model peer_id peer in (lost.0, deadline_failed lost.1)
]

abbrev pub is_link_ready : TransferLinkState → Bool
is_link_ready link_ready = true
is_link_ready _ = false

abbrev pub is_none : {A : Type 0} → Option A → Bool
is_none none = true
is_none (some a) = false

-- The `matches!` of `mark_data_channel_ready`.
abbrev pub is_recovered_stream : Option TransferState → Bool
is_recovered_stream (some (active a)) =
    a.streamed && not (is_link_ready a.link_state) && is_none a.storage_pause
is_recovered_stream _ = false

-- The peer's work is void, its phase is new, and its error is cleared.
unfoldable pub settle_peer : AppModel → Text → PeerRtcState → RtcPhase → AppModel
settle_peer model peer_id peer phase =
    let placed = set_peer model peer_id (record (invalidate_work peer) { phase = phase }) in
    refresh_aggregate_rtc (clear_peer_rtc_error placed peer_id)

unfoldable pub mark_data_channel_ready : AppModel → Text → AppModel × Bool
mark_data_channel_ready model peer_id = elim (find_peer model peer_id) [
  | none ↦ (model, false)
  | some peer ↦ (
    settle_peer model peer_id peer ready,
    is_recovered_stream (get peer_id model.transfers_by_peer),
  )
]

unfoldable pub reset_peer_waiting : AppModel → Text → AppModel × Bool
reset_peer_waiting model peer_id = elim (find_peer model peer_id) [
  | none ↦ (model, false)
  | some peer ↦ (settle_peer model peer_id peer waiting_peer, true)
]
