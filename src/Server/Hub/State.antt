-- ===== src/Server/Hub/State.antt =====
-- rust/apps/server/src/realtime/hub.rs: the state of the connection hub. A hash map is an association
-- list in the order of its keys and a hash set a map to the unit type. The sending half of a
-- connection's queue is a number that `register` gets from tokio's `mpsc::channel`.
use p2p_transmission.Prelude.{ℕ, Option, List}
use p2p_transmission.Prelude.Text.{Text}
use p2p_transmission.OrdMap.Map.{OrdMap}
use p2p_transmission.OrdMap.Order.{text_order}
use p2p_transmission.Domain.Ids.{RoomId, RoomCode, SessionId, PeerId}
use p2p_transmission.Protocol.Realtime.{ServerRealtimeMessage}

abbrev pub ConnectionId : Type 0
ConnectionId = Text

abbrev pub ConnectionSet : Type 0
ConnectionSet = OrdMap ConnectionId (Unit {0})

-- `mpsc::Sender<Outbound>`.
abbrev pub Sender : Type 0
Sender = ℕ

pub record Attachment : Type 0 where
  pub room_id : RoomId
  pub room_code : RoomCode
  pub session_id : SessionId
  pub peer_id : PeerId

pub record JoinWatch : Type 0 where
  pub room_id : RoomId
  pub session_id : SessionId

pub data Outbound : Type 0 where
  message : ServerRealtimeMessage → Outbound
  close : ℕ → Text → Outbound

pub record ConnectionEntry : Type 0 where
  pub session_id : SessionId
  pub sender : Sender
  pub attachment : Option Attachment
  pub join_watch : Option JoinWatch

pub record HubState : Type 0 where
  pub connections : OrdMap ConnectionId ConnectionEntry
  pub evicted_attachments : OrdMap ConnectionId Attachment
  pub room_connections : OrdMap RoomId ConnectionSet
  pub session_routes : OrdMap (RoomId × SessionId) ConnectionId
  pub peer_routes : OrdMap (RoomId × PeerId) ConnectionId

pub data HubError : Type 0 where
  connection_not_found not_attached cannot_signal_self target_not_found slow_consumer : HubError

-- What tokio's `try_send` answers.
pub data SendOutcome : Type 0 where
  sent full closed : SendOutcome

-- What an operation leaves: the state, the calls of `try_send` in their order, and its result.
pub record Step (A : Type 0) : Type 0 where
  pub state : HubState
  pub sends : List (Sender × Outbound)
  pub result : A
