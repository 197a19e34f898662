-- ===== src/Web/Kept.antt =====
-- What the effects, the snapshots and the events of rust/apps/web/src/realtime_session.rs do to the screen.
use p2p_transmission.Prelude.{
  ℕ, ◌≡◌, refl, sym, ap, ◌∙◌, subst, ◌⊎◌, inl, inr, Bool, true, false, not, if◌then◌else◌, Option,
  none, some, List, [], ◌∷◌, arith, Bool-cases,
}
use p2p_transmission.Prelude.Text.{Text}
use p2p_transmission.OrdMap.Order.{text_order, same}
use p2p_transmission.Protocol.Http.{RoomBootstrapResponse}
use p2p_transmission.Web.State.{PeerRtcError}
use p2p_transmission.Web.Model.{AppModel, Screen, booting, lobby, waiting, room, is_receiver}
use p2p_transmission.Web.Aggregate.{
  refresh_aggregate_rtc, clear_peer_rtc_error, clear_rtc_config_error, deactivate_rtc_config,
}
use p2p_transmission.Web.Reducer.{
  RevisionStep, ignore, apply, refresh_snapshot, revision_step, screen_revision_of, screen_revision,
  snapshot_revision_allowed, RevisionedModelEvent, RealtimeEffect, set_realtime_phase,
  mark_target_revision_applied, resolve_waiting, return_to_lobby, sync_rtc_peers,
  refresh_room_snapshot, remove_rtc_peer, suppress_realtime_connection, reconnect_socket,
  accept_rtc_signal,
}
use p2p_transmission.Web.Reducer
use p2p_transmission.Web.Snapshots.{reduce_authoritative_snapshot}
use p2p_transmission.Web.Effects.{
  Client, Browser, KeepsScreen, quiet_receiver, drop_peer, supersede, suppress, forget_rooms,
  leave_to_lobby, apply_realtime_effects,
}
use p2p_transmission.Web.Session.{
  begin_at, begin_revisioned_event, apply_step, run_effects, handle_revisioned_model_event,
  note_recovery, is_member, complete_attachment, settle, put_snapshot, apply_authoritative_snapshot,
  or_zero, target_snapshot_floor, pending_attachment,
}
use p2p_transmission.Web.Target.{RealtimeTargetKind}
use p2p_transmission.Web.Advance.{Shows, revision_step-apply, stepped-Shows, snapshot_on-Shows}

-- The client has left for the lobby, and no target is set.
abbrev pub IsAway : Client → Type 0
IsAway client = (client.model.screen ≡ lobby [] none) × (client.target ≡ none)

-- The screen shows revision `n` or a later one, or the client has left.
abbrev pub Stays : ℕ → Client → Type 0
Stays n client = Shows n client.model ⊎ IsAway client

pub Shows-screen :
    (n : ℕ) (before after : AppModel)
    → after.screen ≡ before.screen
    → Shows n before
    → Shows n after
Shows-screen n before after kept (m, shown, up) = (m, ap screen_revision_of kept ∙ shown, up)

either-screen :
    (c : Bool) (a b : AppModel) (screen : Screen)
    → a.screen ≡ screen
    → b.screen ≡ screen
    → (if c then a else b).screen ≡ screen
either-screen true a b screen here there = here
either-screen false a b screen here there = there

-- Clearing an error that is `old` keeps the screen.
config_error-screen :
    (model : AppModel) (old : Option Text)
    → model.rtc_config_error ≡ old
    → (clear_rtc_config_error model).screen ≡ model.screen
unfolding clear_rtc_config_error
config_error-screen model none at = rw at refl
config_error-screen model (some message) at = rw at refl

deactivate-screen : (model : AppModel) → (deactivate_rtc_config model).screen ≡ model.screen
unfolding deactivate_rtc_config
deactivate-screen model = config_error-screen model model.rtc_config_error refl

peer_error-screen :
    (model : AppModel) (peer_id : Text) (old : Option PeerRtcError)
    → model.rtc_error ≡ old
    → (clear_peer_rtc_error model peer_id).screen ≡ model.screen
unfolding clear_peer_rtc_error
peer_error-screen model peer_id none at = rw at refl
peer_error-screen model peer_id (some e) at = elim (Bool-cases (same e.peer_id peer_id)) [
  | inl hit ↦ rw (at, hit) refl
  | inr miss ↦ rw (at, miss) refl
]

quiet_receiver-screen :
    (model : AppModel) (screen : Screen) → (quiet_receiver model screen).screen ≡ model.screen
quiet_receiver-screen model (room r) =
    either-screen (is_receiver r.role) _ model model.screen refl refl
quiet_receiver-screen model (waiting w) = refl
quiet_receiver-screen model (lobby code invite) = refl
quiet_receiver-screen model booting = refl

drop_peer-screen :
    (model : AppModel) (peer_id : Text) → (drop_peer model peer_id).screen ≡ model.screen
unfolding drop_peer refresh_aggregate_rtc
drop_peer-screen model peer_id =
    quiet_receiver-screen _ (clear_peer_rtc_error model peer_id).screen
    ∙ peer_error-screen model peer_id model.rtc_error refl

suppress-screen :
    (b : Browser) (model : AppModel) → KeepsScreen b → (suppress b model).screen ≡ model.screen
unfolding supersede
suppress-screen b model keeps =
    either-screen b.suppresses_lease (supersede (b.reset_all_peers model)) model model.screen
      (deactivate-screen _ ∙ keeps.reset model) refl

pub leave_to_lobby-IsAway :
    (client : Client) (notice : Option Text) → IsAway (leave_to_lobby client notice)
unfolding leave_to_lobby forget_rooms refresh_aggregate_rtc
leave_to_lobby-IsAway client notice = (deactivate-screen _, refl)

-- The effects of a reducer keep the screen or leave for the lobby.
pub effects-Stays :
    (b : Browser) (n : ℕ)
    → KeepsScreen b
    → (effects : List RealtimeEffect) (client : Client) → Shows n client.model
    → Stays n (apply_realtime_effects b client effects)
unfolding apply_realtime_effects
effects-Stays b n keeps [] client h = inl h
effects-Stays b n keeps (return_to_lobby notice ∷ rest) client h =
    inr (leave_to_lobby-IsAway client (some notice))
effects-Stays b n keeps (suppress_realtime_connection ∷ rest) client h =
    inl (
      Shows-screen n client.model (suppress b client.model) (suppress-screen b client.model keeps)
        h)
effects-Stays b n keeps (set_realtime_phase phase ∷ rest) client h =
    effects-Stays b n keeps rest _ h
effects-Stays b n keeps (Reducer.set_error error ∷ rest) client h = effects-Stays b n keeps rest _ h
effects-Stays b n keeps (mark_target_revision_applied revision ∷ rest) client h =
    effects-Stays b n keeps rest _ h
effects-Stays b n keeps (resolve_waiting ∷ rest) client h = effects-Stays b n keeps rest client h
effects-Stays b n keeps (sync_rtc_peers ∷ rest) client h =
    effects-Stays b n keeps rest _
      (Shows-screen n client.model (b.sync_peers client.model) (keeps.sync client.model) h)
effects-Stays b n keeps (refresh_room_snapshot ∷ rest) client h =
    effects-Stays b n keeps rest client h
effects-Stays b n keeps (remove_rtc_peer peer_id ∷ rest) client h = effects-Stays b n keeps rest _ (
    Shows-screen n client.model
      (if b.keeps_peer peer_id then client.model else drop_peer client.model peer_id)
      (either-screen (b.keeps_peer peer_id) client.model (drop_peer client.model peer_id)
        client.model.screen refl (drop_peer-screen client.model peer_id))
      h)
effects-Stays b n keeps (reconnect_socket ∷ rest) client h = effects-Stays b n keeps rest _ h
effects-Stays b n keeps (accept_rtc_signal peer_id negotiation_id signal ∷ rest) client h =
    effects-Stays b n keeps rest _ (
      Shows-screen n client.model (b.accept_signal peer_id negotiation_id signal client.model)
        (keeps.accept peer_id negotiation_id signal client.model) h)

run_effects-Stays :
    (b : Browser) (n : ℕ) (r : Client × List RealtimeEffect)
    → KeepsScreen b
    → Shows n r.0.model
    → Stays n (run_effects b r)
run_effects-Stays b n (client, effects) keeps h = effects-Stays b n keeps effects client h

pub event-Stays :
    (b : Browser) (client : Client) (n revision : ℕ) (event : RevisionedModelEvent)
    → KeepsScreen b
    → screen_revision client.model ≡ some n
    → Stays n (handle_revisioned_model_event b client revision event)
unfolding handle_revisioned_model_event begin_revisioned_event
event-Stays b client n revision event keeps h =
    run_effects-Stays b n
      (apply_step (begin_at client revision (screen_revision client.model)) revision event) keeps
      (subst (λ o. Shows n (apply_step (begin_at client revision o) revision event).0.model) (sym h)
        (stepped-Shows (begin_at client revision (some n)).0 n revision event
          (revision_step n revision) (revision_step-apply n revision) h))

note_recovery-screen : (r : AppModel × Bool) → (note_recovery r).screen ≡ r.0.screen
note_recovery-screen (model, true) = refl
note_recovery-screen (model, false) = refl

attachment-screen :
    (b : Browser) (model : AppModel) (as_member : Bool)
    → KeepsScreen b
    → (complete_attachment b model as_member).screen ≡ model.screen
unfolding complete_attachment
attachment-screen b model true keeps =
    keeps.sync (note_recovery (b.complete_recovery true model))
    ∙ note_recovery-screen (b.complete_recovery true model)
    ∙ keeps.recover true model
attachment-screen b model false keeps =
    note_recovery-screen (b.complete_recovery false model) ∙ keeps.recover false model

settle-screen :
    (b : Browser) (model : AppModel) (kind : Option RealtimeTargetKind)
    → KeepsScreen b
    → (settle b model kind).screen ≡ model.screen
unfolding settle
settle-screen b model none keeps = keeps.sync model
settle-screen b model (some kind) keeps =
    either-screen b.marks_connected (complete_attachment b model (is_member kind))
      (b.sync_peers model) model.screen (attachment-screen b model (is_member kind) keeps)
      (keeps.sync model)

put_snapshot-screen :
    (b : Browser) (client : Client) (revision : ℕ) (r : AppModel × Option (List Text))
    → KeepsScreen b
    → (put_snapshot b client revision r).0.model.screen ≡ r.0.screen
put_snapshot-screen b client revision (model, none) keeps = refl
put_snapshot-screen b client revision (model, some entering) keeps =
    settle-screen b model (pending_attachment client.target) keeps

unless_Shows :
    (b : Bool) (client : Client) (n : ℕ) (r : Client × Option (List Text))
    → Shows n client.model
    → Shows n r.0.model
    → Shows n (if b then (client, none) else r).0.model
unless_Shows true client n r here there = here
unless_Shows false client n r here there = there

pub snapshot-Shows :
    (b : Browser) (client : Client) (n : ℕ) (next : RoomBootstrapResponse)
    → KeepsScreen b
    → screen_revision client.model ≡ some n
    → Shows n (apply_authoritative_snapshot b client next).0.model
unfolding apply_authoritative_snapshot reduce_authoritative_snapshot
snapshot-Shows b client n next keeps h =
    let reduced = reduce_authoritative_snapshot client.model next in
    unless_Shows
      (not (
        snapshot_revision_allowed (or_zero (screen_revision client.model))
          (or_zero (target_snapshot_floor client.target)) next.revision))
      client n (put_snapshot b client next.revision reduced) (n, h, omega arith)
      (Shows-screen n reduced.0 (put_snapshot b client next.revision reduced).0.model
        (put_snapshot-screen b client next.revision reduced keeps)
        (snapshot_on-Shows client.model n next client.model.screen refl h))
