-- ===== src/Tests/Web.antt =====
-- Instances of the results on the browser client's state machines.
use p2p_transmission.Prelude.{
  ℕ, ◌+◌, ◌≤◌, ◌<◌, ◌^◌, max, ◌≡◌, ◌≢◌, ◌⊎◌, refl, true, false, if◌then◌else◌, Option, none, some,
  List, [], ◌∷◌, ok, arith, inl,
}
use p2p_transmission.Prelude.Text.{Text, text}
use p2p_transmission.OrdMap.Map.{get, insert}
use p2p_transmission.OrdMap.Order.{text_order, text_cmp, same}
use p2p_transmission.Transfer.{receive, TransferFile}
use p2p_transmission.Protocol.Version.{current_protocol}
use p2p_transmission.Protocol.Control.{buffered}
use p2p_transmission.Protocol.Http.{RoomBootstrapResponse, approved}
use p2p_transmission.Web.State.{
  receiver, owner_offer_timeout, owner_retry_delay, new_peer_state, link_ready, ActiveTransfer,
  active, text_received,
}
use p2p_transmission.Web.Model.{RoomScreen, room, AppModel, default_model}
use p2p_transmission.Web.Work.{arm_work, work_is_current}
use p2p_transmission.Web.Retry.{Attempt, started, out_of_fuel, start_rtc_offer}
use p2p_transmission.Web.Attempts.{start_rtc_offer-ends}
use p2p_transmission.Web.Tokens.{
  PeerChange, armed, voided, taken, change_all, outdating, work_is_current-arm_work,
}
use p2p_transmission.Web.Events.{
  RtcEvent, incoming_offered, transfer_started, transfer_progress, text_incoming_offered,
  text_transfer_received,
}
use p2p_transmission.Web.Progress.{
  is_progress_of, plan_progress, apply_transfer_progress, apply_peer_transfer_progress,
}
use p2p_transmission.Web.Planning.{plan_incoming, plan_transfer_event, apply_mutation}
use p2p_transmission.Web.Aggregate.{put_transfer}
use p2p_transmission.Web.Texts.{text_step, apply_text_event}
use p2p_transmission.Web.Handling.{handle_transfer_event, handle_all}
use p2p_transmission.Web.Mirror.{IsMirrored, handle_all-IsMirrored}
use p2p_transmission.Web.Bounds.{handle_transfer_event-progress}
use p2p_transmission.Web.Received.{apply_text_event-received}
use p2p_transmission.Web.Reducer.{peer_offline, peer_online}
use p2p_transmission.Web.Effects.{Client, Browser}
use p2p_transmission.Web.Target.{member_target}
use p2p_transmission.Web.Kept.{Stays}
use p2p_transmission.Web.Stays.{ServerUpdate, event, snapshot, waiting_resolved}

abbrev room_at : ℕ → RoomBootstrapResponse
room_at revision = record {
  version = current_protocol;
  room_id = text "room_1";
  room_code = text "ABC234";
  revision = revision;
  expires_at_ms = 1000;
  participants = [];
  pending_join_requests = [];
}

abbrev receiver_screen : RoomScreen
receiver_screen = record {
  role = receiver;
  snapshot = room_at 7;
  invite = none;
  invite_request_id = none;
}

abbrev receiver_model : AppModel
receiver_model = record default_model { screen = room receiver_screen }

abbrev peer_model : AppModel
peer_model = record default_model { rtc_peer_states = (text "peer_1", new_peer_state 1) ∷ [] }

-- The browser starts every offer and no channel ever opens.
abbrev silent : ℕ → Attempt
silent attempt = record {
  start_offer = ok started;
  current_after_timeout = true;
  ready_after_timeout = false;
  current_after_delay = true;
  ready_after_delay = false;
  while_negotiating = λ model. model;
  while_delayed = λ model. model;
}

start_rtc_offer-ends_example :
    (start_rtc_offer silent (text "peer_1") (5 + 3) peer_model
      ≡ start_rtc_offer silent (text "peer_1") 5 peer_model)
    × ((start_rtc_offer silent (text "peer_1") 5 peer_model).1 ≢ out_of_fuel)
start_rtc_offer-ends_example = start_rtc_offer-ends silent (text "peer_1") 3 peer_model

abbrev changes : List PeerChange
changes = taken ∷ armed (owner_retry_delay 1) ∷ voided ∷ []

changes_outdate : (0 < outdating changes) × (outdating changes < 2 ^ 64)
unfolding outdating
changes_outdate = (omega arith, omega arith)

work_is_current-arm_work_example :
    let begun = arm_work (new_peer_state 1) (owner_offer_timeout 0) in
    (work_is_current begun.0 begun.1 (owner_offer_timeout 0) ≡ true)
    × (work_is_current (change_all begun.0 changes) begun.1 (owner_retry_delay 1) ≡ false)
work_is_current-arm_work_example =
    work_is_current-arm_work (new_peer_state 1) (owner_offer_timeout 0) (owner_retry_delay 1)
      changes (omega arith) changes_outdate.0 changes_outdate.1

abbrev client : Client
client = record {
  model = receiver_model;
  target = some (member_target (text "ABC234") 7 (text "peer_2"));
}

-- A peer that is not reached and a lease that holds.
abbrev quiet : ℕ → Browser
quiet n = record {
  sync_peers = λ model. model;
  reset_all_peers = λ model. model;
  accept_signal = λ peer_id negotiation_id signal model. model;
  complete_recovery = λ as_member model. (model, false);
  keeps_peer = λ peer_id. false;
  suppresses_lease = true;
  marks_connected = true;
}

-- A late event, the next one, a gap, an old snapshot, and the snapshot of a receiver who is admitted.
abbrev updates : List ServerUpdate
updates =
    event 6 (peer_offline (text "session_1"))
    ∷ event 8 (peer_online (text "session_1") (text "peer_1"))
    ∷ event 11 (peer_offline (text "session_1"))
    ∷ snapshot (room_at 7)
    ∷ waiting_resolved (text "peer_2") (ok approved) (ok (room_at 5))
    ∷ []

abbrev photo : TransferFile
photo = record { name = text "photo.jpg"; mime = none; size_bytes = 5000 }

abbrev no_digits : ℕ → Text
no_digits n = []

abbrev arrivals : List RtcEvent
arrivals =
    incoming_offered (text "t_1") buffered photo (photo ∷ []) false
    ∷ transfer_started (text "t_1") receive buffered photo (photo ∷ [])
    ∷ transfer_progress (text "t_1") receive 4000 5000
    ∷ text_incoming_offered (text "t_2") 4 6
    ∷ []

abbrev or_default : Option AppModel → AppModel
or_default none = default_model
or_default (some model) = model

abbrev arrived : AppModel
arrived = or_default (handle_all no_digits receiver_model (text "peer_1") arrivals)

arrivals_handled : handle_all no_digits receiver_model (text "peer_1") arrivals ≡ some arrived
unfolding handle_all handle_transfer_event plan_transfer_event plan_incoming plan_progress
    is_progress_of apply_mutation apply_transfer_progress apply_peer_transfer_progress put_transfer
    apply_text_event text_step get insert same text_cmp
arrivals_handled = refl

receiver_model-IsMirrored : IsMirrored (text "peer_1") receiver_model
unfolding get
receiver_model-IsMirrored = record { receives = refl; files = inl refl; texts = inl refl }

handle_all-IsMirrored_example : IsMirrored (text "peer_1") arrived
handle_all-IsMirrored_example =
    handle_all-IsMirrored no_digits (text "peer_1") receiver_model arrived arrivals
      receiver_model-IsMirrored arrivals_handled

abbrev running : ActiveTransfer
running = record {
  transfer_id = text "t_1";
  direction = receive;
  streamed = false;
  file = photo;
  files = photo ∷ [];
  completed_bytes = 1000;
  awaiting_verification = false;
  link_state = link_ready;
  storage_pause = none;
}

abbrev running_model : AppModel
running_model = record receiver_model {
  transfers_by_peer = (text "peer_1", active running) ∷ [];
  transfer = active running;
}

running_present : get (text "peer_1") running_model.transfers_by_peer ≡ some (active running)
unfolding get same text_cmp
running_present = refl

handle_transfer_event-progress_example :
    (last : AppModel) × (k : ℕ) × (handle_transfer_event no_digits running_model
        (text "peer_1")
        (transfer_progress (text "t_1") receive 4000 5000)
      ≡ some (last, none))
    × ((q : Text)
        → get q last.transfers_by_peer ≡ (
            if same (text "peer_1") q
            then some (active (record running { completed_bytes = k }))
            else get q running_model.transfers_by_peer))
    × (running.completed_bytes ≤ k)
    × (k ≤ max running.completed_bytes running.file.size_bytes)
handle_transfer_event-progress_example =
    handle_transfer_event-progress no_digits running_model (text "peer_1") (text "t_1") receive 4000
      5000 running running_present

abbrev greeting : RtcEvent
greeting = text_transfer_received (text "t_2") (text "hello")

greeting_shown :
    get
      (text "peer_1")
      (apply_text_event receiver_model (text "peer_1") greeting).0.text_transfers_by_peer
    ≡ some (text_received (text "hello"))
unfolding apply_text_event text_step get insert same text_cmp
greeting_shown = refl

apply_text_event-received_example :
    (get (text "peer_1") receiver_model.text_transfers_by_peer
      ≡ some (text_received (text "hello")))
    ⊎ ((text "peer_1" ≡ text "peer_1")
        × ((id : Text) × (greeting ≡ text_transfer_received id (text "hello"))))
apply_text_event-received_example =
    apply_text_event-received receiver_model (text "peer_1") (text "peer_1") (text "hello") greeting
      greeting_shown
