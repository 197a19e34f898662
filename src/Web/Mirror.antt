-- ===== src/Web/Mirror.antt =====
-- The receiver's own transfer is the one that its table has for the sender
-- (rust/apps/web/src/rtc_transfer_events).
use p2p_transmission.Prelude.{
  ℕ, ◌≡◌, ◌⊎◌, refl, sym, ap, ◌∙◌, subst, Bool, true, false, not, if◌then◌else◌, Option, none, some,
  List, [], ◌∷◌, inl, inr,
}
use p2p_transmission.Prelude.Text.{Text}
use p2p_transmission.OrdMap.Map.{get, get-insert_self}
use p2p_transmission.OrdMap.Order.{text_order, same}
use p2p_transmission.Transfer.{TransferDirection}
use p2p_transmission.Web.State.{TransferState, active}
use p2p_transmission.Web.Model.{AppModel, is_receiver_room}
use p2p_transmission.Web.Aggregate.{put_transfer}
use p2p_transmission.Web.Events.{
  RtcEvent, outgoing_offered, outgoing_recovery_offered, incoming_offered, transfer_started,
  awaiting_verification, transfer_paused, transfer_rejected, transfer_completed, transfer_cancelled,
  transfer_failed, transfer_progress, no_plan, NotificationEffect, TransferMutation, set_transfer,
  progress, PlannedTransferEvent,
}
use p2p_transmission.Protocol.Control.{StreamPauseReason}
use p2p_transmission.Web.Progress.{
  transfer_progress_is_valid, plan_found, plan_progress, apply_transfer_progress, follow,
  put_progress, progress_found, apply_peer_transfer_progress,
}
use p2p_transmission.Web.Planning.{
  plan_incoming, plan_completed, plan_pause, with_notice, with_clear_error, apply_mutation,
  plan_transfer_event,
}
use p2p_transmission.Web.Texts.{is_text_event, TextStep, put_text_step, text_step, apply_text_event}
use p2p_transmission.Web.Handling.{handle_plan, handle_transfer_event, and_then, handle_all}

-- In a receiver's room, the model's own transfer and text are the peer's, once the peer has any.
pub record IsMirrored (peer_id : Text) (model : AppModel) : Type 0 where
  pub receives : is_receiver_room model.screen ≡ true
  pub files :
      (get peer_id model.transfers_by_peer ≡ none)
      ⊎ (get peer_id model.transfers_by_peer ≡ some model.transfer)
  pub texts :
      (get peer_id model.text_transfers_by_peer ≡ none)
      ⊎ (get peer_id model.text_transfers_by_peer ≡ some model.text_transfer)

module _ (peer_id : Text) where
  put_transfer-IsMirrored :
      (model : AppModel) (transfer : TransferState)
      → IsMirrored peer_id model
      → IsMirrored peer_id (put_transfer model peer_id transfer)
  unfolding put_transfer
  put_transfer-IsMirrored model transfer v = record {
    receives = v.receives;
    files = inr (
        get-insert_self peer_id transfer model.transfers_by_peer
        ∙ ap some (sym (ap (λ b. if b then transfer else model.transfer) v.receives)));
    texts = v.texts;
  }

  noted-IsMirrored :
      (model : AppModel) (notice : Option Text) (clear : Bool)
      → IsMirrored peer_id model
      → IsMirrored peer_id (with_notice (with_clear_error model clear) notice)
  noted-IsMirrored model none false v = v
  noted-IsMirrored model none true v = record {
    receives = v.receives;
    files = v.files;
    texts = v.texts;
  }
  noted-IsMirrored model (some notice) false v = record {
    receives = v.receives;
    files = v.files;
    texts = v.texts;
  }
  noted-IsMirrored model (some notice) true v = record {
    receives = v.receives;
    files = v.files;
    texts = v.texts;
  }

  module _ (id : Text) (direction : TransferDirection) (bytes : ℕ) where
    put_progress-IsMirrored :
        (model : AppModel) (r : TransferState × Bool)
        → IsMirrored peer_id model
        → apply_transfer_progress model.transfer id direction bytes ≡ r
        → IsMirrored peer_id (put_progress model peer_id id direction bytes r).0
    put_progress-IsMirrored model (updated, false) v h = v
    put_progress-IsMirrored model (updated, true) v h = record {
      receives = v.receives;
      files = inr (
          get-insert_self peer_id updated model.transfers_by_peer
          ∙ ap some (
              sym (
                ap
                  (λ b.
                    follow b (apply_transfer_progress model.transfer id direction bytes) updated
                      model.transfer)
                  v.receives
                ∙ ap (λ own. follow true own updated model.transfer) h)));
      texts = v.texts;
    }

    progress-IsMirrored :
        (model : AppModel)
        → IsMirrored peer_id model
        → IsMirrored peer_id (apply_peer_transfer_progress model peer_id id direction bytes).0
    unfolding apply_peer_transfer_progress
    progress-IsMirrored model v = elim v.files [
      | inl absent ↦
          subst (λ o. IsMirrored peer_id (progress_found model peer_id id direction bytes o).0)
            (sym absent) v
      | inr present ↦
          subst (λ o. IsMirrored peer_id (progress_found model peer_id id direction bytes o).0)
            (sym present)
            (put_progress-IsMirrored model
              (apply_transfer_progress model.transfer id direction bytes) v refl)
    ]

  -- A plan changes the transfer of its own peer only.
  abbrev IsForPeer : Option TransferMutation → Type 0
  IsForPeer none = Unit
  IsForPeer (some (set_transfer q transfer notice clear)) = q ≡ peer_id
  IsForPeer (some (progress q id direction bytes)) = q ≡ peer_id

  abbrev IsPlanForPeer : Option PlannedTransferEvent → Type 0
  IsPlanForPeer none = Unit
  IsPlanForPeer (some plan) = IsForPeer plan.mutation

  unless_IsForPeer :
      (b : Bool) (plan : PlannedTransferEvent)
      → IsForPeer plan.mutation
      → IsForPeer (if b then no_plan else plan).mutation
  unless_IsForPeer true plan h = tt
  unless_IsForPeer false plan h = h

  plan_found-IsForPeer :
      (o : Option TransferState) (id : Text) (direction : TransferDirection) (bytes : ℕ)
      → IsForPeer (plan_found o peer_id id direction bytes).mutation
  plan_found-IsForPeer none id direction bytes = tt
  plan_found-IsForPeer (some current) id direction bytes =
      unless_IsForPeer (not (transfer_progress_is_valid current id direction bytes)) _ refl

  plan_pause-IsForPeer :
      (o : Option TransferState) (id : Text) (direction : TransferDirection)
      (reason : StreamPauseReason) (bytes : ℕ)
      → IsForPeer (plan_pause o peer_id id direction reason bytes).mutation
  unfolding plan_pause
  plan_pause-IsForPeer none id direction reason bytes = tt
  plan_pause-IsForPeer (some (active a)) id direction reason bytes =
      unless_IsForPeer (not (same a.transfer_id id)) _ refl
  plan_pause-IsForPeer (some _) id direction reason bytes = tt

  plan-IsForPeer :
      (to_string : ℕ → Text) (model : AppModel) (e : RtcEvent)
      → IsPlanForPeer (plan_transfer_event to_string model peer_id e)
  unfolding plan_transfer_event plan_incoming plan_completed plan_progress
  plan-IsForPeer to_string model (outgoing_offered id file files) = refl
  plan-IsForPeer to_string model (outgoing_recovery_offered id file files) = refl
  plan-IsForPeer to_string model (incoming_offered id mode file files available) = refl
  plan-IsForPeer to_string model (transfer_started id direction mode file files) = refl
  plan-IsForPeer to_string model (awaiting_verification id file files) = refl
  plan-IsForPeer to_string model (transfer_progress id direction bytes total) =
      plan_found-IsForPeer (get peer_id model.transfers_by_peer) id direction bytes
  plan-IsForPeer to_string model (transfer_paused id direction reason bytes total) =
      plan_pause-IsForPeer (get peer_id model.transfers_by_peer) id direction reason bytes
  plan-IsForPeer to_string model (transfer_rejected id direction file files) = refl
  plan-IsForPeer to_string model (transfer_completed id direction file files hash url) = refl
  plan-IsForPeer to_string model (transfer_cancelled id reason) = refl
  plan-IsForPeer to_string model (transfer_failed id message) = refl
  plan-IsForPeer to_string model _ = tt

  mutation-IsMirrored :
      (model : AppModel) (m : Option TransferMutation)
      → IsForPeer m
      → IsMirrored peer_id model
      → IsMirrored peer_id (apply_mutation model m)
  unfolding apply_mutation
  mutation-IsMirrored model none own v = v
  mutation-IsMirrored model (some (set_transfer q transfer notice clear)) own v =
      subst
        (λ x.
          IsMirrored peer_id
            (put_transfer (with_notice (with_clear_error model clear) notice) x transfer))
        (sym own)
        (put_transfer-IsMirrored (with_notice (with_clear_error model clear) notice) transfer
          (noted-IsMirrored model notice clear v))
  mutation-IsMirrored model (some (progress q id direction bytes)) own v =
      subst (λ x. IsMirrored peer_id (apply_peer_transfer_progress model x id direction bytes).0)
        (sym own) (progress-IsMirrored id direction bytes model v)

  text-IsMirrored :
      (model : AppModel) (o : Option TextStep)
      → IsMirrored peer_id model
      → IsMirrored peer_id (put_text_step model peer_id o).0
  text-IsMirrored model none v = v
  text-IsMirrored model (some step) v = record {
    receives = v.receives;
    files = v.files;
    texts = inr (
        get-insert_self peer_id step.next model.text_transfers_by_peer
        ∙ ap some (sym (ap (λ b. if b then step.next else model.text_transfer) v.receives)));
  }

  -- Whatever the code handles, without a panic, it leaves mirrored.
  abbrev IsMirroredAfter : Option (AppModel × Option NotificationEffect) → Type 0
  IsMirroredAfter none = Unit
  IsMirroredAfter (some handled) = IsMirrored peer_id handled.0

  plan-IsMirrored :
      (model : AppModel) (o : Option PlannedTransferEvent)
      → IsPlanForPeer o
      → IsMirrored peer_id model
      → IsMirroredAfter (handle_plan model o)
  plan-IsMirrored model none own v = tt
  plan-IsMirrored model (some plan) own v = mutation-IsMirrored model plan.mutation own v

  either_IsMirrored :
      (b : Bool) (x y : Option (AppModel × Option NotificationEffect))
      → IsMirroredAfter x
      → IsMirroredAfter y
      → IsMirroredAfter (if b then x else y)
  either_IsMirrored true x y h k = h
  either_IsMirrored false x y h k = k

  handled-IsMirrored :
      (to_string : ℕ → Text) (model : AppModel) (e : RtcEvent)
      → IsMirrored peer_id model
      → IsMirroredAfter (handle_transfer_event to_string model peer_id e)
  unfolding handle_transfer_event apply_text_event
  handled-IsMirrored to_string model e v =
      either_IsMirrored (is_text_event e) (some (apply_text_event model peer_id e))
        (handle_plan model (plan_transfer_event to_string model peer_id e))
        (text-IsMirrored model (text_step model peer_id e) v)
        (plan-IsMirrored model (plan_transfer_event to_string model peer_id e)
          (plan-IsForPeer to_string model e) v)

and_then-some :
    {A B : Type 0} (o : Option A) (f : A → Option B) {b : B}
    → and_then o f ≡ some b
    → (a : A) × (o ≡ some a) × (f a ≡ some b)
and_then-some none f h = absurd cc
and_then-some (some a) f h = (a, refl, h)

-- In a receiver's room, after any events of the sender that the code handles without a panic, the
-- transfer and the text that the screen shows as its own are those of the sender's entries in the two
-- tables. Conditions: that is so at first, or the sender has no entry yet, and no event panics.
pub handle_all-IsMirrored :
    (to_string : ℕ → Text) (peer_id : Text) (model last : AppModel) (events : List RtcEvent)
    → IsMirrored peer_id model
    → handle_all to_string model peer_id events ≡ some last
    → IsMirrored peer_id last
unfolding handle_all
handle_all-IsMirrored to_string peer_id model last [] v h =
    let unchanged : model ≡ last = cc in subst (λ (m : AppModel). IsMirrored peer_id m) unchanged v
handle_all-IsMirrored to_string peer_id model last (e ∷ rest) v h =
    let (handled, one, more) =
      and_then-some (handle_transfer_event to_string model peer_id e)
        (λ handled. handle_all to_string handled.0 peer_id rest) h in
    handle_all-IsMirrored to_string peer_id handled.0 last rest
      (subst (λ o. IsMirroredAfter peer_id o) one (handled-IsMirrored peer_id to_string model e v))
      more
