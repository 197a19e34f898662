-- ===== src/Web/Work.antt =====
-- rust/apps/web/src/rtc_transition.rs: the tokens of pending work, which outdate each other.
use p2p_transmission.Prelude.{ℕ, ◌+◌, ◌%◌, ◌^◌, Bool, true, false, ◌==◌, ◌&&◌, Option, none, some}
use p2p_transmission.Web.State.{
  PendingRtcWork, owner_offer_timeout, owner_retry_delay, passive_deadline, disconnected_deadline,
  PeerRtcState,
}

pub record RtcWorkToken : Type 0 where
  pub instance_generation : ℕ
  pub work_generation : ℕ

-- `==` of the derived instance.
abbrev pub same_work : PendingRtcWork → PendingRtcWork → Bool
same_work (owner_offer_timeout a) (owner_offer_timeout b) = a == b
same_work (owner_retry_delay a) (owner_retry_delay b) = a == b
same_work passive_deadline passive_deadline = true
same_work disconnected_deadline disconnected_deadline = true
same_work _ _ = false

abbrev pub is_pending_as : PendingRtcWork → Option PendingRtcWork → Bool
is_pending_as expected none = false
is_pending_as expected (some work) = same_work work expected

-- `wrapping_add(1)`.
unfoldable pub next_generation : ℕ → ℕ
next_generation g = (g + 1) % 2 ^ 64

unfoldable pub arm_work : PeerRtcState → PendingRtcWork → PeerRtcState × RtcWorkToken
arm_work peer work =
    let generation = next_generation peer.work_generation in
    (
      record peer { work_generation = generation; pending_work = some work },
      record { instance_generation = peer.instance_generation; work_generation = generation },
    )

unfoldable pub invalidate_work : PeerRtcState → PeerRtcState
invalidate_work peer = record peer {
  work_generation = next_generation peer.work_generation;
  pending_work = none;
}

unfoldable pub work_is_current : PeerRtcState → RtcWorkToken → PendingRtcWork → Bool
work_is_current peer token expected =
    peer.instance_generation == token.instance_generation
    && peer.work_generation == token.work_generation
    && is_pending_as expected peer.pending_work
