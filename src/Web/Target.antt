-- ===== src/Web/Target.antt =====
-- rust/apps/web/src/realtime_target.rs: what the client is attached to, and how far it has read. The
-- shared cell of the source is a value that the functions return.
use p2p_transmission.Prelude.{ℕ, max, Bool, true, false, some}
use p2p_transmission.Prelude.Text.{Text}
use p2p_transmission.Protocol.Version.{current_protocol}
use p2p_transmission.Protocol.Realtime.{ClientRealtimeMessage, attach_room, watch_join_request}

pub record RevisionCursor : Type 0 where
  pub last_revision : ℕ
  pub applied_revision : ℕ
  pub awaiting_snapshot : Bool

abbrev pub new_cursor : ℕ → RevisionCursor
new_cursor revision = record {
  last_revision = revision;
  applied_revision = revision;
  awaiting_snapshot = false;
}

abbrev pub observe : RevisionCursor → ℕ → RevisionCursor
observe cursor revision = record cursor { last_revision = max cursor.last_revision revision }

abbrev pub mark_applied : RevisionCursor → ℕ → RevisionCursor
mark_applied cursor revision = record (observe cursor revision) {
  applied_revision = max cursor.applied_revision revision;
  awaiting_snapshot = false;
}

abbrev pub reconcile_applied : RevisionCursor → ℕ → RevisionCursor
reconcile_applied cursor revision = record (observe cursor revision) {
  applied_revision = max cursor.applied_revision revision;
}

abbrev pub mark_snapshot_pending : RevisionCursor → ℕ → RevisionCursor
mark_snapshot_pending cursor revision = record (observe cursor revision) {
  awaiting_snapshot = true;
}

-- The identifier is the peer's for a member, and the join request's for a watch.
pub data RealtimeTargetKind : Type 0 where
  member join_watch : RealtimeTargetKind

pub record RealtimeTarget : Type 0 where
  pub kind : RealtimeTargetKind
  pub room_code : Text
  pub id : Text
  pub cursor : RevisionCursor

abbrev pub member_target : Text → ℕ → Text → RealtimeTarget
member_target room_code last_revision peer_id = record {
  kind = member;
  room_code = room_code;
  id = peer_id;
  cursor = new_cursor last_revision;
}

abbrev pub join_watch_target : Text → Text → ℕ → RealtimeTarget
join_watch_target room_code request_id last_revision = record {
  kind = join_watch;
  room_code = room_code;
  id = request_id;
  cursor = new_cursor last_revision;
}

abbrev pub initial_message : RealtimeTarget → ClientRealtimeMessage
initial_message target = elim target.kind [
  | member ↦
      attach_room current_protocol target.room_code target.id (some target.cursor.applied_revision)
  | join_watch ↦
      watch_join_request current_protocol target.room_code target.id
        (some target.cursor.applied_revision)
]

-- `update_revision`.
abbrev pub update_revision : (RevisionCursor → RevisionCursor) → RealtimeTarget → RealtimeTarget
update_revision f target = record target { cursor = f target.cursor }
