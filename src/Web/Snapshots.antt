-- ===== src/Web/Snapshots.antt =====
-- rust/apps/web/src/realtime_event_reducer.rs: expiry, errors, the socket, and the snapshot of a room that
-- the server sends.
use p2p_transmission.Prelude.{
  ℕ, Bool, true, false, not, ◌==◌, ◌&&◌, leb, ltb, if◌then◌else◌, Option, none, some, List, [], ◌∷◌,
  ◌++◌, any,
}
use p2p_transmission.Prelude.Text.{Text, text}
use p2p_transmission.OrdMap.Order.{text_order, same}
use p2p_transmission.Protocol.Http.{RoomBootstrapResponse}
use p2p_transmission.Protocol.Realtime.{
  Signal, JoinRequestSnapshot, ParticipantRoleWire, owner, receiver, ParticipantSnapshot,
}
use p2p_transmission.Web.State.{realtime_connecting, realtime_reconnecting}
use p2p_transmission.Web.Model.{AppModel, Screen, waiting, room, RoomScreen, is_receiver}
use p2p_transmission.Web.Reducer.{
  room_expired_notice, RealtimeEffect, set_realtime_phase, set_error, mark_target_revision_applied,
  resolve_waiting, return_to_lobby, suppress_realtime_connection, reconnect_socket,
  accept_rtc_signal, screen_revision, set_snapshot,
}

unfoldable pub reduce_room_expired : AppModel → ℕ → List RealtimeEffect
reduce_room_expired model revision = elim (screen_revision model) [
  | none ↦ []
  | some current ↦
      if leb current revision
      then mark_target_revision_applied revision ∷ return_to_lobby room_expired_notice ∷ []
      else []
]

unfoldable pub reduce_server_error : Text → Text → List RealtimeEffect
reduce_server_error code message =
    if same code (text "join_request_resolved")
    then resolve_waiting ∷ []
    else if same code (text "connection_replaced")
    then suppress_realtime_connection ∷ []
    else set_error message ∷ []

abbrev pub reduce_signal : Text → Text → Signal → List RealtimeEffect
reduce_signal from_peer_id negotiation_id signal =
    accept_rtc_signal from_peer_id negotiation_id signal ∷ []

abbrev pub reduce_socket_opened : List RealtimeEffect
reduce_socket_opened = set_realtime_phase realtime_connecting ∷ []

abbrev pub reduce_socket_error : Text → List RealtimeEffect
reduce_socket_error error = set_realtime_phase realtime_reconnecting ∷ set_error error ∷ []

unfoldable pub reduce_socket_closed : ℕ → Bool → List RealtimeEffect
reduce_socket_closed code has_target =
    if code == 4001
    then suppress_realtime_connection ∷ []
    else if has_target
    then reconnect_socket ∷ []
    else []

abbrev pub has_request : Text → List JoinRequestSnapshot → Bool
has_request request_id requests =
    any (λ (request : JoinRequestSnapshot). same request.request_id request_id) requests

abbrev pub waiting_request_missing : Screen → RoomBootstrapResponse → Bool
waiting_request_missing (waiting w) snapshot =
    not (has_request w.request_id snapshot.pending_join_requests)
waiting_request_missing _ snapshot = false

-- `==` of the derived instances.
abbrev pub same_option : Option Text → Option Text → Bool
same_option none none = true
same_option (some a) (some b) = same a b
same_option _ _ = false

abbrev pub same_bool : Bool → Bool → Bool
same_bool true b = b
same_bool false b = not b

abbrev pub same_role : ParticipantRoleWire → ParticipantRoleWire → Bool
same_role owner owner = true
same_role receiver receiver = true
same_role _ _ = false

abbrev pub same_participant : ParticipantSnapshot → ParticipantSnapshot → Bool
same_participant a b =
    same a.session_id b.session_id
    && same a.display_name b.display_name
    && same_role a.role b.role
    && same_bool a.online b.online
    && same_option a.peer_id b.peer_id

abbrev pub same_request : JoinRequestSnapshot → JoinRequestSnapshot → Bool
same_request a b =
    same a.request_id b.request_id
    && same a.session_id b.session_id
    && same a.display_name b.display_name
    && a.expires_at_ms == b.expires_at_ms

abbrev pub same_list : {A : Type 0} → (A → A → Bool) → List A → List A → Bool
same_list f [] [] = true
same_list f (a ∷ xs) (b ∷ ys) = f a b && same_list f xs ys
same_list f _ _ = false

unfoldable pub same_snapshot : RoomBootstrapResponse → RoomBootstrapResponse → Bool
same_snapshot a b =
    a.version.major == b.version.major
    && a.version.minor == b.version.minor
    && same a.room_id b.room_id
    && same a.room_code b.room_code
    && a.revision == b.revision
    && a.expires_at_ms == b.expires_at_ms
    && same_list same_participant a.participants b.participants
    && same_list same_request a.pending_join_requests b.pending_join_requests

abbrev pub is_online_receiver : ParticipantSnapshot → Bool
is_online_receiver p = same_role p.role receiver && p.online

-- `filter` and `map` of the participants to their sessions.
abbrev pub sessions_where : (ParticipantSnapshot → Bool) → List ParticipantSnapshot → List Text
sessions_where p [] = []
sessions_where p (participant ∷ rest) =
    let later = sessions_where p rest in
    if p participant then participant.session_id ∷ later else later

abbrev pub is_listed : List Text → Text → Bool
is_listed sessions session_id = any (λ s. same s session_id) sessions

abbrev pub entering_of : RoomScreen → RoomBootstrapResponse → List Text
entering_of r next =
    let previous_online = sessions_where is_online_receiver r.snapshot.participants in
    if is_receiver r.role
    then []
    else sessions_where (λ p. is_online_receiver p && not (is_listed previous_online p.session_id))
        next.participants

-- The loop that pushes the sessions that are not listed yet.
abbrev pub push_new : List Text → List Text → List Text
push_new listed [] = listed
push_new listed (session_id ∷ rest) =
    push_new (if is_listed listed session_id then listed else listed ++ session_id ∷ []) rest

abbrev pub snapshot_in_room :
    AppModel → RoomScreen → RoomBootstrapResponse → AppModel × Option (List Text)
snapshot_in_room model r next =
    if ltb next.revision r.snapshot.revision
    then (model, none)
    else if same_snapshot r.snapshot next
    then (model, some [])
    else (
      record (set_snapshot model r next) {
        entering_receivers = push_new model.entering_receivers (entering_of r next);
      },
      some (entering_of r next),
    )

abbrev pub snapshot_on : AppModel → RoomBootstrapResponse → Screen → AppModel × Option (List Text)
snapshot_on model next (room r) = snapshot_in_room model r next
snapshot_on model next (waiting w) =
    if ltb next.revision w.revision
    then (model, none)
    else (record model { screen = waiting (record w { revision = next.revision }) }, some [])
snapshot_on model next _ = (model, some [])

unfoldable pub reduce_authoritative_snapshot :
    AppModel → RoomBootstrapResponse → AppModel × Option (List Text)
reduce_authoritative_snapshot model next = snapshot_on model next model.screen
