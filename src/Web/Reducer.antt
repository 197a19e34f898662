-- ===== src/Web/Reducer.antt =====
-- rust/apps/web/src/realtime_event_reducer.rs: what the messages of the server do to the screen.
use p2p_transmission.Prelude.{
  ℕ, Bool, true, false, ◌==◌, ◌&&◌, leb, if◌then◌else◌, Option, none, some, List, [], ◌∷◌, ◌++◌,
  any,
}
use p2p_transmission.Prelude.Text.{Text, text}
use p2p_transmission.Prelude.Words.{checked_add}
use p2p_transmission.OrdMap.Order.{text_order, same}
use p2p_transmission.Protocol.Http.{RoomBootstrapResponse}
use p2p_transmission.Protocol.Realtime.{
  Signal, JoinRequestSnapshot, JoinDecisionWire, approved, rejected, ParticipantSnapshot,
}
use p2p_transmission.Web.State.{RealtimePhase}
use p2p_transmission.Web.Model.{AppModel, Screen, waiting, room, RoomScreen, is_receiver}
use p2p_transmission.Web.Aggregate.{is_text}

abbrev pub join_rejected_notice : Text
join_rejected_notice = text "发送者未允许本次加入申请"

abbrev pub room_expired_notice : Text
room_expired_notice = text "房间已过期，请创建或加入新的房间"

pub data RevisionStep : Type 0 where
  ignore apply refresh_snapshot : RevisionStep

abbrev pub is_number : ℕ → Option ℕ → Bool
is_number n none = false
is_number n (some m) = m == n

unfoldable pub revision_step : ℕ → ℕ → RevisionStep
revision_step current incoming =
    if leb incoming current
    then ignore
    else if is_number incoming (checked_add current 1)
    then apply
    else refresh_snapshot

-- The fields of the last two: the local and the incoming revision, and whether the client is a member.
pub data AttachmentDecision : Type 0 where
  ignore_attachment : AttachmentDecision
  attachment_ready : ℕ → ℕ → Bool → AttachmentDecision
  await_snapshot : ℕ → ℕ → AttachmentDecision

abbrev pub screen_revision_of : Screen → Option ℕ
screen_revision_of (waiting w) = some w.revision
screen_revision_of (room r) = some r.snapshot.revision
screen_revision_of _ = none

abbrev pub screen_revision : AppModel → Option ℕ
screen_revision model = screen_revision_of model.screen

unfoldable pub reduce_attachment : AppModel → ℕ → Bool → AttachmentDecision
reduce_attachment model incoming member = elim (screen_revision model) [
  | none ↦ ignore_attachment
  | some local ↦
      if local == incoming
      then attachment_ready local incoming member
      else await_snapshot local incoming
]

unfoldable pub snapshot_revision_allowed : ℕ → ℕ → ℕ → Bool
snapshot_revision_allowed local observed incoming = leb local incoming && leb observed incoming

pub data RevisionedModelEvent : Type 0 where
  join_requested : JoinRequestSnapshot → RevisionedModelEvent
  join_decided : Text → JoinDecisionWire → RevisionedModelEvent
  peer_online : Text → Text → RevisionedModelEvent
  peer_offline : Text → RevisionedModelEvent

pub data RealtimeEffect : Type 0 where
  set_realtime_phase : RealtimePhase → RealtimeEffect
  set_error : Text → RealtimeEffect
  mark_target_revision_applied : ℕ → RealtimeEffect
  resolve_waiting : RealtimeEffect
  return_to_lobby : Text → RealtimeEffect
  sync_rtc_peers refresh_room_snapshot : RealtimeEffect
  remove_rtc_peer : Text → RealtimeEffect
  suppress_realtime_connection reconnect_socket : RealtimeEffect
  accept_rtc_signal : Text → Text → Signal → RealtimeEffect

abbrev pub set_snapshot : AppModel → RoomScreen → RoomBootstrapResponse → AppModel
set_snapshot model r snapshot = record model { screen = room (record r { snapshot = snapshot }) }

-- The request goes to the end unless its id is there.
abbrev pub push_request : JoinRequestSnapshot → List JoinRequestSnapshot → List JoinRequestSnapshot
push_request request requests =
    if any (λ (existing : JoinRequestSnapshot). same existing.request_id request.request_id)
      requests
    then requests
    else requests ++ request ∷ []

abbrev pub drop_request : Text → List JoinRequestSnapshot → List JoinRequestSnapshot
drop_request request_id [] = []
drop_request request_id (request ∷ rest) =
    let kept = drop_request request_id rest in
    if same request.request_id request_id then kept else request ∷ kept

-- `iter_mut().find(|participant| participant.session_id == session_id)`.
abbrev pub set_peer_of :
    Text → Bool → Option Text → List ParticipantSnapshot → List ParticipantSnapshot
set_peer_of session_id online peer_id [] = []
set_peer_of session_id online peer_id (p ∷ rest) =
    let later = set_peer_of session_id online peer_id rest in
    if same p.session_id session_id
    then record p { online = online; peer_id = peer_id } ∷ rest
    else p ∷ later

abbrev pub peer_of : Text → List ParticipantSnapshot → Option Text
peer_of session_id [] = none
peer_of session_id (p ∷ rest) =
    let later = peer_of session_id rest in if same p.session_id session_id then p.peer_id else later

abbrev pub decision_effect : JoinDecisionWire → RealtimeEffect
decision_effect approved = resolve_waiting
decision_effect rejected = return_to_lobby join_rejected_notice

abbrev pub on_join_requested :
    AppModel → ℕ → JoinRequestSnapshot → Screen → AppModel × List RealtimeEffect
on_join_requested model revision request (room r) = if is_receiver r.role then (model, []) else (
  set_snapshot model r (record r.snapshot {
    revision = revision;
    pending_join_requests = push_request request r.snapshot.pending_join_requests;
  }),
  mark_target_revision_applied revision ∷ [],
)
on_join_requested model revision request _ = (model, [])

abbrev pub on_join_decided :
    AppModel → ℕ → Text → JoinDecisionWire → Screen → AppModel × List RealtimeEffect
on_join_decided model revision request_id decision (waiting w) =
    if same w.request_id request_id
    then (
      record model { screen = waiting (record w { revision = revision }) },
      mark_target_revision_applied revision ∷ decision_effect decision ∷ [],
    )
    else (model, [])
on_join_decided model revision request_id decision (room r) = (
  set_snapshot model r (record r.snapshot {
    revision = revision;
    pending_join_requests = drop_request request_id r.snapshot.pending_join_requests;
  }),
  mark_target_revision_applied revision ∷ [],
)
on_join_decided model revision request_id decision _ = (model, [])

abbrev pub on_peer_online : AppModel → ℕ → Text → Text → Screen → AppModel × List RealtimeEffect
on_peer_online model revision session_id peer_id (room r) = (
  set_snapshot model r (record r.snapshot {
    revision = revision;
    participants = set_peer_of session_id true (some peer_id) r.snapshot.participants;
  }),
  mark_target_revision_applied revision ∷ sync_rtc_peers ∷ refresh_room_snapshot ∷ [],
)
on_peer_online model revision session_id peer_id _ = (model, sync_rtc_peers ∷ [])

abbrev pub own_session : AppModel → Option Text
own_session model = elim model.session [ none ↦ none | some session ↦ some session.session_id ]

abbrev pub remove_effect : Option Text → List RealtimeEffect
remove_effect none = []
remove_effect (some peer_id) = remove_rtc_peer peer_id ∷ []

abbrev pub on_peer_offline : AppModel → ℕ → Text → Screen → AppModel × List RealtimeEffect
on_peer_offline model revision session_id (room r) =
    let remote =
      if is_text session_id (own_session model)
      then none
      else peer_of session_id r.snapshot.participants in
    (
      set_snapshot model r (record r.snapshot {
        revision = revision;
        participants = set_peer_of session_id false none r.snapshot.participants;
      }),
      mark_target_revision_applied revision ∷ remove_effect remote ++ refresh_room_snapshot ∷ [],
    )
on_peer_offline model revision session_id _ = (model, [])

-- The first statement of `JoinDecided`.
abbrev pub clear_decision : AppModel → Text → AppModel
clear_decision model request_id = record model {
  decision_request_id =
      if is_text request_id model.decision_request_id then none else model.decision_request_id;
}

unfoldable pub reduce_revisioned_model_event :
    AppModel → ℕ → RevisionedModelEvent → AppModel × List RealtimeEffect
reduce_revisioned_model_event model revision (join_requested request) =
    on_join_requested model revision request model.screen
reduce_revisioned_model_event model revision (join_decided request_id decision) =
    on_join_decided (clear_decision model request_id) revision request_id decision model.screen
reduce_revisioned_model_event model revision (peer_online session_id peer_id) =
    on_peer_online model revision session_id peer_id model.screen
reduce_revisioned_model_event model revision (peer_offline session_id) =
    on_peer_offline model revision session_id model.screen
