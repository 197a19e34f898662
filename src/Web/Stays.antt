-- ===== src/Web/Stays.antt =====
-- Steps of a client under the messages of the server and the tasks that they spawn
-- (rust/apps/web/src/realtime_session.rs), and the revision of the room that it shows.
use p2p_transmission.Prelude.{ℕ, suc, min, Option, none, some, List, [], ◌∷◌, Result, ok}
use p2p_transmission.Prelude.Text.{Text}
use p2p_transmission.OrdMap.Order.{text_order}
use p2p_transmission.Protocol.Http.{RoomBootstrapResponse, JoinRequestStateWire, approved}
use p2p_transmission.Protocol.Realtime.{Signal}
use p2p_transmission.Web.Reducer.{RevisionedModelEvent}
use p2p_transmission.Web.Snapshots.{reduce_room_expired, reduce_server_error, reduce_signal}
use p2p_transmission.Web.Effects.{Client, Browser, apply_realtime_effects}
use p2p_transmission.Web.Waiting.{PlatformError, platform_error_event, dispatch_on, finish_waiting}
use p2p_transmission.Web.Session.{handle_revisioned_model_event, apply_authoritative_snapshot}
use p2p_transmission.Web.Target.{RealtimeTarget}

-- A message of the server, or the end of a task that was spawned. `refresh_failed` is the error of the
-- snapshot that is fetched.
pub data ServerUpdate : Type 0 where
  event : ℕ → RevisionedModelEvent → ServerUpdate
  snapshot : RoomBootstrapResponse → ServerUpdate
  room_expired : ℕ → ServerUpdate
  server_error : Text → Text → ServerUpdate
  signalled : Text → Text → Signal → ServerUpdate
  refresh_failed : PlatformError → ServerUpdate
  waiting_resolved :
      Text
      → Result PlatformError JoinRequestStateWire
      → Result PlatformError RoomBootstrapResponse
      → ServerUpdate

abbrev pub step : Browser → Client → ServerUpdate → Client
step b client (event revision e) = handle_revisioned_model_event b client revision e
step b client (snapshot next) = (apply_authoritative_snapshot b client next).0
step b client (room_expired revision) =
    apply_realtime_effects b client (reduce_room_expired client.model revision)
step b client (server_error code message) =
    apply_realtime_effects b client (reduce_server_error code message)
step b client (signalled peer_id negotiation_id signal) =
    apply_realtime_effects b client (reduce_signal peer_id negotiation_id signal)
step b client (refresh_failed error) = dispatch_on client (platform_error_event error)
step b client (waiting_resolved peer_id status bootstrap) =
    finish_waiting client peer_id status bootstrap

-- Without a target no lease is current.
abbrev pub step_under : Browser → Client → Option RealtimeTarget → ServerUpdate → Client
step_under b client none u = client
step_under b client (some target) u = step b client u

-- `browsers n` is what the peers and the socket do in the step after n others.
unfoldable pub update_all : (ℕ → Browser) → ℕ → Client → List ServerUpdate → Client
update_all browsers n client [] = client
update_all browsers n client (u ∷ rest) =
    update_all browsers (suc n) (step_under (browsers n) client client.target u) rest

-- A snapshot with which an admitted receiver enters the room is not compared with what was shown.
abbrev pub entry : ServerUpdate → Option ℕ
entry (waiting_resolved peer_id (ok approved) (ok next)) = some next.revision
entry _ = none

abbrev pub lower : ℕ → Option ℕ → ℕ
lower n none = n
lower n (some revision) = min n revision

abbrev pub floor_after : ℕ → ServerUpdate → ℕ
floor_after n u = lower n (entry u)

abbrev pub floor : ℕ → List ServerUpdate → ℕ
floor n [] = n
floor n (u ∷ rest) = floor (floor_after n u) rest
