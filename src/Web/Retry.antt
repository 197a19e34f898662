-- ===== src/Web/Retry.antt =====
-- rust/apps/web/src/rtc_orchestration.rs: the attempts of the owner to reach a peer. What lies between
-- two uses of the model is a parameter: the answers of the browser, and `meanwhile`, which is whatever
-- other tasks do to the model while this one sleeps.
use p2p_transmission.Prelude.{
  ℕ, zero, suc, Bool, true, false, not, if◌then◌else◌, Option, none, some, List, [], ◌∷◌, get_elem?,
  Result, ok, err,
}
use p2p_transmission.Prelude.Text.{Text, text}
use p2p_transmission.OrdMap.Order.{text_order}
use p2p_transmission.Web.State.{PeerRtcState}
use p2p_transmission.Web.Model.{AppModel}
use p2p_transmission.Web.Work.{RtcWorkToken}
use p2p_transmission.Web.Aggregate.{set_peer_rtc_error}
use p2p_transmission.Web.Rtc.{
  OwnerTimeoutStep, ignore_timeout, retry, timeout_failed, find_peer, begin_owner_offer,
  advance_owner_timeout, claim_owner_retry, mark_peer_start_failed, mark_data_channel_ready,
}

abbrev pub rtc_retry_delays_ms : List ℕ
rtc_retry_delays_ms = 500 ∷ 1000 ∷ 2000 ∷ 4000 ∷ []

unfoldable pub rtc_retry_delay_ms : ℕ → Option ℕ
rtc_retry_delay_ms attempt = get_elem? rtc_retry_delays_ms attempt

-- `p2p_browser_platform::OfferStart`.
pub data OfferStart : Type 0 where
  started already_active : OfferStart

-- What the browser answers in one attempt, and what other tasks do to the model in its two sleeps.
pub record Attempt : Type 0 where
  pub start_offer : Result Text OfferStart
  pub current_after_timeout : Bool
  pub ready_after_timeout : Bool
  pub current_after_delay : Bool
  pub ready_after_delay : Bool
  pub while_negotiating : AppModel → AppModel
  pub while_delayed : AppModel → AppModel

-- How the attempts end. `out_of_fuel` is the model's own.
pub data RetryEnd : Type 0 where
  out_of_fuel left_active start_failed superseded became_ready ignored not_claimed : RetryEnd
  gave_up : Bool → RetryEnd

abbrev pub note_start_failed : AppModel × Option Bool → Text → Text → AppModel
note_start_failed (model, none) peer_id message = model
note_start_failed (model, some paused) peer_id message = set_peer_rtc_error model peer_id message

abbrev pub note_recovered : AppModel × Bool → AppModel
note_recovered (model, false) = model
note_recovered (model, true) = record model { notice = some (text "连接已恢复，传输将从最后检查点继续") }

unfoldable pub mark_ready_from_runtime : AppModel → Text → AppModel
mark_ready_from_runtime model peer_id = note_recovered (mark_data_channel_ready model peer_id)

-- The model and the end, when the error of the last attempt is set.
abbrev pub give_up : AppModel → Text → Bool → AppModel × RetryEnd
give_up model peer_id paused = (
  if paused then model else set_peer_rtc_error model peer_id (text "有接收者的点对点连接失败，可以等待其重新连接"),
  gave_up paused,
)

abbrev pub fail_start : AppModel → Text → ℕ → Text → AppModel × RetryEnd
fail_start model peer_id instance message = (
  note_start_failed (mark_peer_start_failed model peer_id instance) peer_id message,
  start_failed,
)

module _ (attempts : ℕ → Attempt) (peer_id : Text) where
  -- What follows the delay before the next attempt, which is `next`.
  abbrev pub after_delay :
      Attempt → AppModel → RtcWorkToken → ℕ → (AppModel → AppModel × RetryEnd) → AppModel × RetryEnd
  after_delay a model token next_attempt next =
      if not a.current_after_delay
      then (model, superseded)
      else if a.ready_after_delay
      then (mark_ready_from_runtime model peer_id, became_ready)
      else let claimed = claim_owner_retry model peer_id token next_attempt in
        if not claimed.1 then (claimed.0, not_claimed) else next claimed.0

  -- The `match step`.
  abbrev pub after_step :
      Attempt
      → AppModel × OwnerTimeoutStep
      → (RtcWorkToken → ℕ → AppModel → AppModel × RetryEnd)
      → AppModel × RetryEnd
  after_step a (model, ignore_timeout) next = (model, ignored)
  after_step a (model, timeout_failed paused) next = give_up model peer_id paused
  after_step a (model, retry token attempt delay_ms) next =
      after_delay a (a.while_delayed model) token attempt (next token attempt)

  -- What follows the negotiation timeout of an armed attempt.
  abbrev pub after_timeout :
      Attempt
      → AppModel
      → RtcWorkToken
      → ℕ
      → (RtcWorkToken → ℕ → AppModel → AppModel × RetryEnd)
      → AppModel × RetryEnd
  after_timeout a model token attempt next =
      if not a.current_after_timeout
      then (model, superseded)
      else if a.ready_after_timeout
      then (mark_ready_from_runtime model peer_id, became_ready)
      else after_step a
          (advance_owner_timeout model peer_id token attempt (rtc_retry_delay_ms attempt)) next

  abbrev pub after_begin :
      Attempt
      → AppModel × Option RtcWorkToken
      → ℕ
      → (RtcWorkToken → ℕ → AppModel → AppModel × RetryEnd)
      → AppModel × RetryEnd
  after_begin a (model, none) attempt next = (model, superseded)
  after_begin a (model, some token) attempt next =
      after_timeout a (a.while_negotiating model) token attempt next

  abbrev pub after_start :
      Attempt
      → Result Text OfferStart
      → AppModel
      → ℕ
      → ℕ
      → Bool
      → (RtcWorkToken → ℕ → AppModel → AppModel × RetryEnd)
      → AppModel × RetryEnd
  after_start a (err message) model instance attempt active_fails next =
      fail_start model peer_id instance message
  after_start a (ok already_active) model instance attempt active_fails next =
      if active_fails
      then fail_start model peer_id instance (text "点对点连接重试状态异常，请稍后重试")
      else (model, left_active)
  after_start a (ok started) model instance attempt active_fails next =
      after_begin a (begin_owner_offer model peer_id instance attempt) attempt next

  unfoldable pub start_owner_offer_attempt : ℕ → AppModel → ℕ → ℕ → Bool → AppModel × RetryEnd
  start_owner_offer_attempt zero model instance attempt active_fails = (model, out_of_fuel)
  start_owner_offer_attempt (suc fuel) model instance attempt active_fails =
      after_start (attempts attempt) (attempts attempt).start_offer model instance attempt
        active_fails
        (λ token next_attempt later.
          start_owner_offer_attempt fuel later token.instance_generation next_attempt true)

  abbrev pub offer_to : ℕ → AppModel → Option PeerRtcState → AppModel × RetryEnd
  offer_to fuel model none = (model, ignored)
  offer_to fuel model (some peer) =
      start_owner_offer_attempt fuel model peer.instance_generation 0 false

  unfoldable pub start_rtc_offer : ℕ → AppModel → AppModel × RetryEnd
  start_rtc_offer fuel model = offer_to fuel model (find_peer model peer_id)
