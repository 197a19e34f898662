-- ===== src/Web/Advance.antt =====
-- What the reducers of rust/apps/web/src/realtime_event_reducer.rs do to the revision that is shown.
use p2p_transmission.Prelude.{
  ℕ, ◌≤◌, ◌<◌, ◌≡◌, refl, ap, ◌∙◌, subst, true, ltb, some, arith, inl, inr, Bool-cases,
}
use p2p_transmission.Prelude.Text.{Text}
use p2p_transmission.OrdMap.Order.{text_order, same}
use p2p_transmission.Protocol.Http.{RoomBootstrapResponse}
use p2p_transmission.Protocol.Realtime.{JoinRequestSnapshot, JoinDecisionWire}
use p2p_transmission.Web.Model.{
  AppModel, Screen, booting, lobby, waiting, room, RoomScreen, is_receiver,
}
use p2p_transmission.Web.Reducer.{
  RevisionStep, ignore, apply, refresh_snapshot, revision_step, screen_revision_of, screen_revision,
  RevisionedModelEvent, join_requested, join_decided, peer_online, peer_offline, on_join_requested,
  on_join_decided, on_peer_online, on_peer_offline, clear_decision, reduce_revisioned_model_event,
}
use p2p_transmission.Web.Snapshots.{same_snapshot, snapshot_in_room, snapshot_on}
use p2p_transmission.Web.Effects.{Client}
use p2p_transmission.Web.Session.{apply_step}

-- The screen shows revision `n` or a later one.
abbrev pub Shows : ℕ → AppModel → Type 0
Shows n model = (m : ℕ) × (screen_revision model ≡ some m) × (n ≤ m)

pub revision_step-apply :
    (current incoming : ℕ) → revision_step current incoming ≡ apply → current < incoming
unfolding revision_step
revision_step-apply current incoming h = ground arith

module _ (model : AppModel) (n revision : ℕ) (later : n < revision) where
  join_requested-Shows :
      (request : JoinRequestSnapshot) (screen : Screen)
      → model.screen ≡ screen
      → screen_revision_of screen ≡ some n
      → Shows n (on_join_requested model revision request screen).0
  join_requested-Shows request (room r) at h = elim (Bool-cases (is_receiver r.role)) [
    | inl hit ↦ rw hit (n, ap screen_revision_of at ∙ h, omega arith)
    | inr miss ↦ rw miss (revision, refl, omega arith)
  ]
  join_requested-Shows request (waiting w) at h = (n, ap screen_revision_of at ∙ h, omega arith)
  join_requested-Shows request (lobby code invite) at h = absurd cc
  join_requested-Shows request booting at h = absurd cc

  join_decided-Shows :
      (request_id : Text) (decision : JoinDecisionWire) (screen : Screen)
      → model.screen ≡ screen
      → screen_revision_of screen ≡ some n
      → Shows n
          (on_join_decided (clear_decision model request_id) revision request_id decision screen).0
  join_decided-Shows request_id decision (room r) at h = (revision, refl, omega arith)
  join_decided-Shows request_id decision (waiting w) at h =
      elim (Bool-cases (same w.request_id request_id)) [
        | inl hit ↦ rw hit (revision, refl, omega arith)
        | inr miss ↦ rw miss (n, ap screen_revision_of at ∙ h, omega arith)
      ]
  join_decided-Shows request_id decision (lobby code invite) at h = absurd cc
  join_decided-Shows request_id decision booting at h = absurd cc

  peer_online-Shows :
      (session_id peer_id : Text) (screen : Screen)
      → model.screen ≡ screen
      → screen_revision_of screen ≡ some n
      → Shows n (on_peer_online model revision session_id peer_id screen).0
  peer_online-Shows session_id peer_id (room r) at h = (revision, refl, omega arith)
  peer_online-Shows session_id peer_id (waiting w) at h =
      (n, ap screen_revision_of at ∙ h, omega arith)
  peer_online-Shows session_id peer_id (lobby code invite) at h = absurd cc
  peer_online-Shows session_id peer_id booting at h = absurd cc

  peer_offline-Shows :
      (session_id : Text) (screen : Screen)
      → model.screen ≡ screen
      → screen_revision_of screen ≡ some n
      → Shows n (on_peer_offline model revision session_id screen).0
  peer_offline-Shows session_id (room r) at h = (revision, refl, omega arith)
  peer_offline-Shows session_id (waiting w) at h = (n, ap screen_revision_of at ∙ h, omega arith)
  peer_offline-Shows session_id (lobby code invite) at h = absurd cc
  peer_offline-Shows session_id booting at h = absurd cc

  reduced-Shows :
      (event : RevisionedModelEvent)
      → screen_revision model ≡ some n
      → Shows n (reduce_revisioned_model_event model revision event).0
  unfolding reduce_revisioned_model_event
  reduced-Shows (join_requested request) h = join_requested-Shows request model.screen refl h
  reduced-Shows (join_decided request_id decision) h =
      join_decided-Shows request_id decision model.screen refl h
  reduced-Shows (peer_online session_id peer_id) h =
      peer_online-Shows session_id peer_id model.screen refl h
  reduced-Shows (peer_offline session_id) h = peer_offline-Shows session_id model.screen refl h

pub stepped-Shows :
    (client : Client) (n revision : ℕ) (event : RevisionedModelEvent) (step : RevisionStep)
    → (step ≡ apply → n < revision)
    → screen_revision client.model ≡ some n
    → Shows n (apply_step (client, some step) revision event).0.model
stepped-Shows client n revision event apply later h =
    reduced-Shows client.model n revision (later refl) event h
stepped-Shows client n revision event ignore later h = (n, h, omega arith)
stepped-Shows client n revision event refresh_snapshot later h = (n, h, omega arith)

-- A room shows the snapshot that it accepts; an equal one has the same revision.
same_snapshot-revision :
    (a b : RoomBootstrapResponse) → same_snapshot a b ≡ true → a.revision ≡ b.revision
unfolding same_snapshot
same_snapshot-revision a b h = ground arith

snapshot_in_room-Shows :
    (model : AppModel) (r : RoomScreen) (next : RoomBootstrapResponse)
    → model.screen ≡ room r
    → Shows r.snapshot.revision (snapshot_in_room model r next).0
snapshot_in_room-Shows model r next at = elim (Bool-cases (ltb next.revision r.snapshot.revision)) [
  | inl older ↦ rw older (r.snapshot.revision, ap screen_revision_of at, omega arith)
  | inr newer ↦ elim (Bool-cases (same_snapshot r.snapshot next)) [
    | inl equal ↦ rw (newer, equal) (r.snapshot.revision, ap screen_revision_of at, omega arith)
    | inr differs ↦ rw (newer, differs) (next.revision, refl, ground arith)
  ]
]

pub snapshot_on-Shows :
    (model : AppModel) (n : ℕ) (next : RoomBootstrapResponse) (screen : Screen)
    → model.screen ≡ screen
    → screen_revision_of screen ≡ some n
    → Shows n (snapshot_on model next screen).0
snapshot_on-Shows model n next (room r) at h =
    let equal : r.snapshot.revision ≡ n = cc in
    subst (λ k. Shows k (snapshot_in_room model r next).0) equal
      (snapshot_in_room-Shows model r next at)
snapshot_on-Shows model n next (waiting w) at h = elim (Bool-cases (ltb next.revision w.revision)) [
  | inl older ↦ rw older (n, ap screen_revision_of at ∙ h, omega arith)
  | inr newer ↦ rw newer (next.revision, refl, ground arith)
]
snapshot_on-Shows model n next (lobby code invite) at h = absurd cc
snapshot_on-Shows model n next booting at h = absurd cc
