-- ===== src/Web/Session.antt =====
-- rust/apps/web/src/realtime_session.rs: how an event or a snapshot with a revision reaches the model,
-- while the lease of the connection is current.
use p2p_transmission.Prelude.{
  ℕ, Bool, true, false, if◌then◌else◌, not, Option, none, some, List, [],
}
use p2p_transmission.Prelude.Text.{Text, text}
use p2p_transmission.Protocol.Http.{RoomBootstrapResponse}
use p2p_transmission.Web.State.{realtime_connected}
use p2p_transmission.Web.Model.{AppModel}
use p2p_transmission.Web.Reducer.{
  RevisionStep, apply, refresh_snapshot, revision_step, screen_revision, snapshot_revision_allowed,
  RevisionedModelEvent, RealtimeEffect, reduce_revisioned_model_event,
}
use p2p_transmission.Web.Snapshots.{reduce_authoritative_snapshot}
use p2p_transmission.Web.Effects.{Client, Browser, dispatch_app_event, apply_realtime_effects}
use p2p_transmission.Web.App.{set_realtime, set_notice}
use p2p_transmission.Web.Target.{
  RealtimeTarget, RealtimeTargetKind, member, join_watch, observe, mark_applied, reconcile_applied,
  mark_snapshot_pending, update_revision,
}

abbrev pub note_step : RevisionStep → ℕ → RealtimeTarget → RealtimeTarget
note_step refresh_snapshot revision target =
    update_revision (λ cursor. mark_snapshot_pending cursor revision) target
note_step _ revision target = update_revision (λ cursor. observe cursor revision) target

abbrev pub begin_target : Option RealtimeTarget → ℕ → RevisionStep → ℕ → Option RealtimeTarget
begin_target none current step revision = none
begin_target (some target) current step revision =
    some (
      note_step step revision (update_revision (λ cursor. reconcile_applied cursor current) target))

abbrev pub begin_at : Client → ℕ → Option ℕ → Client × Option RevisionStep
begin_at client revision none = (client, none)
begin_at client revision (some current) =
    let step = revision_step current revision in
    (record client { target = begin_target client.target current step revision }, some step)

unfoldable pub begin_revisioned_event : Client → ℕ → Client × Option RevisionStep
begin_revisioned_event client revision = begin_at client revision (screen_revision client.model)

abbrev pub apply_step :
    Client × Option RevisionStep → ℕ → RevisionedModelEvent → Client × List RealtimeEffect
apply_step (client, some apply) revision event =
    let reduced = reduce_revisioned_model_event client.model revision event in
    (record client { model = reduced.0 }, reduced.1)
apply_step (client, _) revision event = (client, [])

abbrev pub run_effects : Browser → Client × List RealtimeEffect → Client
run_effects b (client, effects) = apply_realtime_effects b client effects

unfoldable pub handle_revisioned_model_event : Browser → Client → ℕ → RevisionedModelEvent → Client
handle_revisioned_model_event b client revision event =
    run_effects b (apply_step (begin_revisioned_event client revision) revision event)

-- `unwrap_or(0)`.
abbrev pub or_zero : Option ℕ → ℕ
or_zero none = 0
or_zero (some n) = n

abbrev pub target_snapshot_floor : Option RealtimeTarget → Option ℕ
target_snapshot_floor none = none
target_snapshot_floor (some target) = some target.cursor.last_revision

abbrev pub mark_snapshot : Option RealtimeTarget → ℕ → Option RealtimeTarget
mark_snapshot none revision = none
mark_snapshot (some target) revision =
    some (update_revision (λ cursor. mark_applied cursor revision) target)

abbrev pub pending_attachment : Option RealtimeTarget → Option RealtimeTargetKind
pending_attachment none = none
pending_attachment (some target) =
    if target.cursor.awaiting_snapshot then some target.kind else none

abbrev pub is_member : RealtimeTargetKind → Bool
is_member member = true
is_member join_watch = false

abbrev pub note_recovery : AppModel × Bool → AppModel
note_recovery (model, recovered) =
    let connected = dispatch_app_event model (set_realtime realtime_connected) in
    if recovered then dispatch_app_event connected (set_notice (some (text "连接已恢复"))) else connected

unfoldable pub complete_attachment : Browser → AppModel → Bool → AppModel
complete_attachment b model as_member =
    let noted = note_recovery (b.complete_recovery as_member model) in
    if as_member then b.sync_peers noted else noted

unfoldable pub settle : Browser → AppModel → Option RealtimeTargetKind → AppModel
settle b model none = b.sync_peers model
settle b model (some kind) =
    if b.marks_connected then complete_attachment b model (is_member kind) else b.sync_peers model

abbrev pub put_snapshot :
    Browser → Client → ℕ → AppModel × Option (List Text) → Client × Option (List Text)
put_snapshot b client revision (model, none) = (record client { model = model }, none)
put_snapshot b client revision (model, some entering) = (
  record client {
    model = settle b model (pending_attachment client.target);
    target = mark_snapshot client.target revision;
  },
  some entering,
)

unfoldable pub apply_authoritative_snapshot :
    Browser → Client → RoomBootstrapResponse → Client × Option (List Text)
apply_authoritative_snapshot b client snapshot =
    let local = or_zero (screen_revision client.model) in
    let floor = or_zero (target_snapshot_floor client.target) in
    if not (snapshot_revision_allowed local floor snapshot.revision)
    then (client, none)
    else put_snapshot b client snapshot.revision
        (reduce_authoritative_snapshot client.model snapshot)
