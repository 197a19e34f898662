-- ===== src/Web/Received.antt =====
-- The content of a text appears only when it has been received
-- (rust/apps/web/src/rtc_transfer_events/text_transition.rs).
use p2p_transmission.Prelude.{
  ℕ, ◌≡◌, ◌⊎◌, sym, ap, ◌∙◌, if◌then◌else◌, Option, none, some, inl, inr, Bool-cases,
}
use p2p_transmission.Prelude.Text.{Text}
use p2p_transmission.OrdMap.Map.{get, get-insert}
use p2p_transmission.OrdMap.Order.{text_order, same, same_iff}
use p2p_transmission.Transfer.{TransferDirection, send, receive}
use p2p_transmission.Web.State.{TextTransferState, text_received}
use p2p_transmission.Web.Model.{AppModel}
use p2p_transmission.Web.Events.{
  RtcEvent, text_outgoing_offered, text_incoming_offered, text_transfer_accepted,
  text_transfer_rejected, text_transfer_received, text_transfer_delivered, text_transfer_cancelled,
  text_transfer_failed,
}
use p2p_transmission.Web.Texts.{
  text_metadata_for, TextStep, accepted_step, delivered_step, text_step, put_text_step,
  apply_text_event,
}

-- Is `content` in the step's state only if the event brought it?
abbrev IsBrought : Text → RtcEvent → Option TextStep → Type 0
IsBrought content event none = Unit
IsBrought content event (some step) =
    step.next ≡ text_received content → (id : Text) × (event ≡ text_transfer_received id content)

module _ (content : Text) where
  accepted-IsBrought :
      (e : RtcEvent) (id : Text) (direction : TransferDirection) (o : Option (ℕ × ℕ))
      → IsBrought content e (accepted_step id direction o)
  accepted-IsBrought e id send none = tt
  accepted-IsBrought e id receive none = tt
  accepted-IsBrought e id send (some (characters, bytes)) = λ h. absurd cc
  accepted-IsBrought e id receive (some (characters, bytes)) = λ h. absurd cc

  delivered-IsBrought : (e : RtcEvent) (o : Option (ℕ × ℕ)) → IsBrought content e (delivered_step o)
  delivered-IsBrought e none = tt
  delivered-IsBrought e (some (characters, bytes)) = λ h. absurd cc

  text_step-IsBrought :
      (model : AppModel) (peer_id : Text) (e : RtcEvent)
      → IsBrought content e (text_step model peer_id e)
  unfolding text_step
  text_step-IsBrought model peer_id (text_outgoing_offered id characters bytes) = λ h. absurd cc
  text_step-IsBrought model peer_id (text_incoming_offered id characters bytes) = λ h. absurd cc
  text_step-IsBrought model peer_id (text_transfer_accepted id direction) =
      accepted-IsBrought _ id direction
        (text_metadata_for (get peer_id model.text_transfers_by_peer) id)
  text_step-IsBrought model peer_id (text_transfer_rejected id direction) = λ h. absurd cc
  text_step-IsBrought model peer_id (text_transfer_received id brought) = λ h. (id, cc)
  text_step-IsBrought model peer_id (text_transfer_delivered id) =
      delivered-IsBrought _ (text_metadata_for (get peer_id model.text_transfers_by_peer) id)
  text_step-IsBrought model peer_id (text_transfer_cancelled id) = λ h. absurd cc
  text_step-IsBrought model peer_id (text_transfer_failed id message) = λ h. absurd cc
  text_step-IsBrought model peer_id _ = tt

  put-received :
      (model : AppModel) (peer_id q : Text) (e : RtcEvent) (o : Option TextStep)
      → IsBrought content e o
      → get q (put_text_step model peer_id o).0.text_transfers_by_peer
        ≡ some (text_received content)
      → (get q model.text_transfers_by_peer ≡ some (text_received content))
        ⊎ ((q ≡ peer_id) × ((id : Text) × (e ≡ text_transfer_received id content)))
  put-received model peer_id q e none brought h = inl h
  put-received model peer_id q e (some step) brought h = elim (Bool-cases (same peer_id q)) [
    | inl here ↦
        let placed : ◌≡◌ {A = Option TextTransferState} (some step.next)
            (some (text_received content)) =
          sym (
            get-insert q peer_id step.next model.text_transfers_by_peer
            ∙ ap (λ b. if b then some step.next else get q model.text_transfers_by_peer) here)
          ∙ h in
        inr (sym ((same_iff peer_id q).0 here), brought cc)
    | inr other ↦ inl (
        sym (
          get-insert q peer_id step.next model.text_transfers_by_peer
          ∙ ap (λ b. if b then some step.next else get q model.text_transfers_by_peer) other)
        ∙ h)
  ]

-- If after an event of a peer some peer's text is received with a content, then it was so before, or the
-- event is of that peer and is the arrival of this content: no offer, acceptance or delivery notice
-- brings content.
pub apply_text_event-received :
    (model : AppModel) (peer_id q content : Text) (e : RtcEvent)
    → get q (apply_text_event model peer_id e).0.text_transfers_by_peer
      ≡ some (text_received content)
    → (get q model.text_transfers_by_peer ≡ some (text_received content))
      ⊎ ((q ≡ peer_id) × ((id : Text) × (e ≡ text_transfer_received id content)))
unfolding apply_text_event
apply_text_event-received model peer_id q content e h =
    put-received content model peer_id q e (text_step model peer_id e)
      (text_step-IsBrought content model peer_id e) h
