-- ===== src/Web/Attempts.antt =====
-- The owner's attempts end (rust/apps/web/src/rtc_orchestration.rs): the table of delays has four
-- entries, so there are at most five.
use p2p_transmission.Prelude.{
  ℕ, zero, suc, ◌+◌, ◌≤◌, ◌≡◌, refl, subst, ◌≢◌, Bool, true, false, not, if◌then◌else◌, Option,
  none, some, Result, ok, err, arith,
}
use p2p_transmission.Prelude.Text.{Text}
use p2p_transmission.OrdMap.Order.{text_order}
use p2p_transmission.Web.State.{PeerRtcState, owner_offer_timeout}
use p2p_transmission.Web.Model.{AppModel}
use p2p_transmission.Web.Work.{RtcWorkToken, work_is_current}
use p2p_transmission.Web.Rtc.{
  OwnerTimeoutStep, ignore_timeout, retry, timeout_failed, find_peer, next_attempt, timeout_step,
  advance_from, advance_owner_timeout, begin_owner_offer, claim_owner_retry,
}
use p2p_transmission.Web.Retry.{
  rtc_retry_delay_ms, OfferStart, started, already_active, Attempt, RetryEnd, out_of_fuel,
  after_delay, after_step, after_timeout, after_begin, after_start, start_owner_offer_attempt,
  offer_to, start_rtc_offer,
}

-- Two runs end alike, and not for lack of fuel.
abbrev Alike : AppModel × RetryEnd → AppModel × RetryEnd → Type 0
Alike one other = (other ≡ one) × (one.1 ≢ out_of_fuel)

if_Alike :
    (b : Bool) {x₁ x₂ y₁ y₂ : AppModel × RetryEnd}
    → Alike x₁ x₂
    → Alike y₁ y₂
    → Alike (if b then x₁ else y₁) (if b then x₂ else y₂)
if_Alike true x y = x
if_Alike false x y = y

retry_delay-bound : (attempt d : ℕ) → rtc_retry_delay_ms attempt ≡ some d → attempt ≤ 3
unfolding rtc_retry_delay_ms
retry_delay-bound zero d h = omega arith
retry_delay-bound (suc zero) d h = omega arith
retry_delay-bound (suc (suc zero)) d h = omega arith
retry_delay-bound (suc (suc (suc zero))) d h = omega arith
retry_delay-bound (suc (suc (suc (suc n)))) d h = absurd cc

step-of :
    (model : AppModel) (peer_id : Text) (attempt : ℕ) (delay : Option ℕ) (peer : PeerRtcState)
    (t : RtcWorkToken) (n d : ℕ)
    → (timeout_step model peer_id attempt peer delay).1 ≡ retry t n d
    → (delay ≡ some d) × (n ≡ next_attempt attempt)
unfolding timeout_step
step-of model peer_id attempt none peer t n d h = absurd cc
step-of model peer_id attempt (some x) peer t n d h = (cc, cc)

not_ignored :
    (b : Bool) (model : AppModel) (r : AppModel × OwnerTimeoutStep) (t : RtcWorkToken) (n d : ℕ)
    → (if b then (model, ignore_timeout) else r).1 ≡ retry t n d
    → r.1 ≡ retry t n d
not_ignored true model r t n d h = absurd cc
not_ignored false model r t n d h = h

-- A retry has a delay, and its number is the next one.
retry-of :
    (model : AppModel) (peer_id : Text) (token : RtcWorkToken) (attempt : ℕ) (delay : Option ℕ)
    (peer : Option PeerRtcState) (t : RtcWorkToken) (n d : ℕ)
    → (advance_from model peer_id token attempt delay peer).1 ≡ retry t n d
    → (delay ≡ some d) × (n ≡ next_attempt attempt)
unfolding advance_from
retry-of model peer_id token attempt delay none t n d h = absurd cc
retry-of model peer_id token attempt delay (some peer) t n d h =
    step-of model peer_id attempt delay peer t n d (
      not_ignored (not (work_is_current peer token (owner_offer_timeout attempt))) model
        (timeout_step model peer_id attempt peer delay) t n d h)

module _ (attempts : ℕ → Attempt) (peer_id : Text) where
  module _ (a : Attempt) where
    delay-Alike :
        (m : AppModel) (token : RtcWorkToken) (n : ℕ) (next₁ next₂ : AppModel → AppModel × RetryEnd)
        → ((later : AppModel) → Alike (next₁ later) (next₂ later))
        → Alike
            (after_delay attempts peer_id a m token n next₁)
            (after_delay attempts peer_id a m token n next₂)
    delay-Alike m token n next₁ next₂ h =
        if_Alike (not a.current_after_delay) (refl, λ e. cc)
          (if_Alike a.ready_after_delay (refl, λ e. cc)
            (if_Alike (not (claim_owner_retry m peer_id token n).1) (refl, λ e. cc)
              (h (claim_owner_retry m peer_id token n).0)))

    step-Alike :
        (r : AppModel × OwnerTimeoutStep)
        (next₁ next₂ : RtcWorkToken → ℕ → AppModel → AppModel × RetryEnd)
        → ((t : RtcWorkToken) (n d : ℕ) (later : AppModel)
            → r.1 ≡ retry t n d
            → Alike (next₁ t n later) (next₂ t n later))
        → Alike (after_step attempts peer_id a r next₁) (after_step attempts peer_id a r next₂)
    step-Alike (m, ignore_timeout) next₁ next₂ h = (refl, λ e. cc)
    step-Alike (m, timeout_failed paused) next₁ next₂ h = (refl, λ e. cc)
    step-Alike (m, retry t n d) next₁ next₂ h =
        delay-Alike (a.while_delayed m) t n (next₁ t n) (next₂ t n) (λ later. h t n d later refl)

    timeout-Alike :
        (m : AppModel) (token : RtcWorkToken) (attempt : ℕ)
        (next₁ next₂ : RtcWorkToken → ℕ → AppModel → AppModel × RetryEnd)
        → ((t : RtcWorkToken) (n d : ℕ) (later : AppModel)
            → rtc_retry_delay_ms attempt ≡ some d
            → n ≡ next_attempt attempt
            → Alike (next₁ t n later) (next₂ t n later))
        → Alike
            (after_timeout attempts peer_id a m token attempt next₁)
            (after_timeout attempts peer_id a m token attempt next₂)
    unfolding advance_owner_timeout
    timeout-Alike m token attempt next₁ next₂ h =
        let step = advance_owner_timeout m peer_id token attempt (rtc_retry_delay_ms attempt) in
        if_Alike (not a.current_after_timeout) (refl, λ e. cc)
          (if_Alike a.ready_after_timeout (refl, λ e. cc)
            (step-Alike step next₁ next₂ (λ t n d later e.
              let (delayed, numbered) =
                retry-of m peer_id token attempt (rtc_retry_delay_ms attempt) (find_peer m peer_id)
                  t n d e in
              h t n d later delayed numbered)))

    begin-Alike :
        (r : AppModel × Option RtcWorkToken) (attempt : ℕ)
        (next₁ next₂ : RtcWorkToken → ℕ → AppModel → AppModel × RetryEnd)
        → ((t : RtcWorkToken) (n d : ℕ) (later : AppModel)
            → rtc_retry_delay_ms attempt ≡ some d
            → n ≡ next_attempt attempt
            → Alike (next₁ t n later) (next₂ t n later))
        → Alike
            (after_begin attempts peer_id a r attempt next₁)
            (after_begin attempts peer_id a r attempt next₂)
    begin-Alike (m, none) attempt next₁ next₂ h = (refl, λ e. cc)
    begin-Alike (m, some token) attempt next₁ next₂ h =
        timeout-Alike (a.while_negotiating m) token attempt next₁ next₂ h

    start-Alike :
        (o : Result Text OfferStart) (m : AppModel) (instance attempt : ℕ) (flag : Bool)
        (next₁ next₂ : RtcWorkToken → ℕ → AppModel → AppModel × RetryEnd)
        → ((t : RtcWorkToken) (n d : ℕ) (later : AppModel)
            → rtc_retry_delay_ms attempt ≡ some d
            → n ≡ next_attempt attempt
            → Alike (next₁ t n later) (next₂ t n later))
        → Alike
            (after_start attempts peer_id a o m instance attempt flag next₁)
            (after_start attempts peer_id a o m instance attempt flag next₂)
    start-Alike (err message) m instance attempt flag next₁ next₂ h = (refl, λ e. cc)
    start-Alike (ok already_active) m instance attempt flag next₁ next₂ h =
        if_Alike flag (refl, λ e. cc) (refl, λ e. cc)
    start-Alike (ok started) m instance attempt flag next₁ next₂ h =
        begin-Alike (begin_owner_offer m peer_id instance attempt) attempt next₁ next₂ h

  attempts-Alike :
      (fuel more : ℕ) (m : AppModel) (instance attempt : ℕ) (flag : Bool)
      → 5 ≤ fuel + attempt
      → attempt ≤ 4
      → Alike
          (start_owner_offer_attempt attempts peer_id fuel m instance attempt flag)
          (start_owner_offer_attempt attempts peer_id (fuel + more) m instance attempt flag)
  unfolding start_owner_offer_attempt
  attempts-Alike zero more m instance attempt flag enough low = absurd (omega arith)
  attempts-Alike (suc fuel) more m instance attempt flag enough low =
      let longer : suc (fuel + more) ≡ suc fuel + more = omega arith in
      subst
        (λ k.
          Alike (start_owner_offer_attempt attempts peer_id (suc fuel) m instance attempt flag)
            (start_owner_offer_attempt attempts peer_id k m instance attempt flag))
        longer
        (start-Alike (attempts attempt) (attempts attempt).start_offer m instance attempt flag _ _
          (λ t n d later delayed numbered.
            attempts-Alike fuel more later t.instance_generation n true
              (omega (arith, retry_delay-bound attempt d delayed))
              (omega (arith, retry_delay-bound attempt d delayed))))

  offer-Alike :
      (more : ℕ) (m : AppModel) (peer : Option PeerRtcState)
      → Alike (offer_to attempts peer_id 5 m peer) (offer_to attempts peer_id (5 + more) m peer)
  offer-Alike more m none = (refl, λ e. cc)
  offer-Alike more m (some peer) =
      attempts-Alike 5 more m peer.instance_generation 0 false (omega arith) (omega arith)

  -- Whatever the browser answers in each attempt, and whatever other tasks do to the model while the
  -- owner waits, `start_rtc_offer` ends within five attempts: five units of fuel are enough, and any
  -- more give the same model and the same end.
  pub start_rtc_offer-ends :
      (more : ℕ) (model : AppModel)
      → (start_rtc_offer attempts peer_id (5 + more) model
          ≡ start_rtc_offer attempts peer_id 5 model)
        × ((start_rtc_offer attempts peer_id 5 model).1 ≢ out_of_fuel)
  unfolding start_rtc_offer
  start_rtc_offer-ends more model = offer-Alike more model (find_peer model peer_id)
