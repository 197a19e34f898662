-- ===== src/Web/Tokens.antt =====
-- Outdated work is never taken for current work (rust/apps/web/src/rtc_transition.rs).
use p2p_transmission.Prelude.{
  ℕ, suc, ◌+◌, ◌%◌, ◌^◌, ◌<◌, ◌≡◌, refl, ◌∙◌, Bool, true, false, ◌==◌, ◌&&◌, none, List, [], ◌∷◌,
  arith,
}
use p2p_transmission.Web.State.{
  RtcPhase, PendingRtcWork, owner_offer_timeout, owner_retry_delay, passive_deadline,
  disconnected_deadline, OutgoingRecoveryPhase, PeerRtcState,
}
use p2p_transmission.Web.Work.{
  same_work, next_generation, arm_work, invalidate_work, work_is_current,
}

-- What the transitions do to a peer's state: they arm or void its work, take a pending work out, or
-- change its phase or the state of its recovery.
pub data PeerChange : Type 0 where
  armed : PendingRtcWork → PeerChange
  voided taken : PeerChange
  moved : RtcPhase → PeerChange
  recovered : OutgoingRecoveryPhase → PeerChange

unfoldable pub change : PeerRtcState → PeerChange → PeerRtcState
change peer (armed work) = (arm_work peer work).0
change peer voided = invalidate_work peer
change peer taken = record peer { pending_work = none }
change peer (moved phase) = record peer { phase = phase }
change peer (recovered phase) = record peer { outgoing_recovery = phase }

unfoldable pub change_all : PeerRtcState → List PeerChange → PeerRtcState
change_all peer [] = peer
change_all peer (c ∷ rest) = change_all (change peer c) rest

-- The changes that outdate the work before them.
unfoldable pub outdating : List PeerChange → ℕ
outdating [] = 0
outdating (armed work ∷ rest) = suc (outdating rest)
outdating (voided ∷ rest) = suc (outdating rest)
outdating (taken ∷ rest) = outdating rest
outdating (moved phase ∷ rest) = outdating rest
outdating (recovered phase ∷ rest) = outdating rest

generation_step : (g n : ℕ) → ((g + 1) % 2 ^ 64 + n) % 2 ^ 64 ≡ (g + suc n) % 2 ^ 64
generation_step g n = omega arith

generation-change_all :
    (peer : PeerRtcState) (cs : List PeerChange)
    → peer.work_generation < 2 ^ 64
    → (change_all peer cs).work_generation ≡ (peer.work_generation + outdating cs) % 2 ^ 64
unfolding change_all change outdating arm_work invalidate_work next_generation
generation-change_all peer [] fits = omega arith
generation-change_all peer (armed work ∷ rest) fits =
    generation-change_all (change peer (armed work)) rest (omega arith)
    ∙ generation_step peer.work_generation (outdating rest)
generation-change_all peer (voided ∷ rest) fits =
    generation-change_all (change peer voided) rest (omega arith)
    ∙ generation_step peer.work_generation (outdating rest)
generation-change_all peer (taken ∷ rest) fits = generation-change_all (change peer taken) rest fits
generation-change_all peer (moved phase ∷ rest) fits =
    generation-change_all (change peer (moved phase)) rest fits
generation-change_all peer (recovered phase ∷ rest) fits =
    generation-change_all (change peer (recovered phase)) rest fits

same_work_self : (work : PendingRtcWork) → same_work work work ≡ true
same_work_self (owner_offer_timeout a) = ground arith
same_work_self (owner_retry_delay a) = ground arith
same_work_self passive_deadline = refl
same_work_self disconnected_deadline = refl

wrapped_fits : (g : ℕ) → (g + 1) % 2 ^ 64 < 2 ^ 64
wrapped_fits g = omega arith

later_differs :
    (g n x : ℕ) → g < 2 ^ 64 → 0 < n → n < 2 ^ 64 → x ≡ (g + n) % 2 ^ 64 → (x == g) ≡ false
later_differs g n x fits some_change few h = ground arith

middle_fails : (a b c : Bool) → b ≡ false → (a && b && c) ≡ false
middle_fails a b c h = ground arith

all_three : (g i : ℕ) (c : Bool) → c ≡ true → (i == i && g == g && c) ≡ true
all_three g i c h = ground arith

-- The token that `arm_work` returns is current for the work that it armed. After any further changes of
-- the peer's state of which at least one and fewer than 2^64 arm or void work, the token is current
-- for no work at all, although the counter of 64 bits wraps around. Condition: the counter is a
-- number of 64 bits.
pub work_is_current-arm_work :
    (peer : PeerRtcState) (work expected : PendingRtcWork) (cs : List PeerChange)
    → peer.work_generation < 2 ^ 64
    → 0 < outdating cs
    → outdating cs < 2 ^ 64
    → let begun = arm_work peer work in
      (work_is_current begun.0 begun.1 work ≡ true)
      × (work_is_current (change_all begun.0 cs) begun.1 expected ≡ false)
unfolding arm_work work_is_current next_generation
work_is_current-arm_work peer work expected cs fits some_change few =
    let begun = arm_work peer work in
    let g = begun.1.work_generation in
    (
      all_three g peer.instance_generation (same_work work work) (same_work_self work),
      middle_fails _ _ _ (
          later_differs g (outdating cs) (change_all begun.0 cs).work_generation
            (wrapped_fits peer.work_generation) some_change few
            (generation-change_all begun.0 cs (wrapped_fits peer.work_generation))),
    )
