-- ===== src/Web/Bounds.antt =====
-- Progress goes forward and stays within the file
-- (rust/apps/web/src/rtc_transfer_events/transition/progress.rs).
use p2p_transmission.Prelude.{
  ℕ, ◌≤◌, max, ◌≡◌, refl, sym, ap, ◌∙◌, Bool, true, false, not, leb, ◌&&◌, if◌then◌else◌, none,
  some, arith, inl, inr, Bool-cases, leb→le,
}
use p2p_transmission.Prelude.Text.{Text}
use p2p_transmission.OrdMap.Map.{get, get-insert}
use p2p_transmission.OrdMap.Order.{text_order, same, same_iff}
use p2p_transmission.Transfer.{TransferDirection}
use p2p_transmission.Web.State.{ActiveTransfer, active}
use p2p_transmission.Web.Model.{AppModel}
use p2p_transmission.Web.Rtc.{is_link_ready, is_none}
use p2p_transmission.Web.Events.{transfer_progress}
use p2p_transmission.Web.Progress.{
  same_direction, is_progress_of, plan_found, plan_progress, apply_transfer_progress, put_progress,
  progress_found, apply_peer_transfer_progress,
}
use p2p_transmission.Web.Planning.{plan_transfer_event, apply_mutation}
use p2p_transmission.Web.Handling.{handle_plan, handle_transfer_event}

-- The model after a progress event on the entry `a`.
module _ (model : AppModel) (peer_id id : Text) (direction : TransferDirection) (bytes : ℕ)
    (a : ActiveTransfer) (h : get peer_id model.transfers_by_peer ≡ some (active a)) where
  abbrev moved : AppModel
  moved = (apply_peer_transfer_progress model peer_id id direction bytes).0

  moved-entry :
      is_progress_of a id direction bytes ≡ true
      → (q : Text)
      → get q moved.transfers_by_peer ≡ (
          if same peer_id q
          then some (active (record a { completed_bytes = bytes }))
          else get q model.transfers_by_peer)
  unfolding apply_peer_transfer_progress apply_transfer_progress
  moved-entry valid q =
      ap (λ o. get q (progress_found model peer_id id direction bytes o).0.transfers_by_peer) h
      ∙ ap
          (λ b.
            get q
              (put_progress model peer_id id direction bytes (
                if b
                then (active (record a { completed_bytes = bytes }), true)
                else (active a, false))).0.transfers_by_peer)
          valid
      ∙ get-insert q peer_id (active (record a { completed_bytes = bytes })) model.transfers_by_peer

  -- What the event of a progress does to the model.
  handled_progress :
      (to_string : ℕ → Text) (total : ℕ)
      → handle_transfer_event to_string model peer_id (transfer_progress id direction bytes total)
        ≡ some (if is_progress_of a id direction bytes then moved else model, none)
  unfolding handle_transfer_event plan_transfer_event plan_progress apply_mutation
  handled_progress to_string total =
      ap (λ o. handle_plan model (some (plan_found o peer_id id direction bytes))) h
      ∙ elim (Bool-cases (is_progress_of a id direction bytes)) [
        | inl valid ↦ rw valid refl
        | inr invalid ↦ rw invalid refl
      ]

conj_last :
    (p q r s t u w : Bool) → (p && q && r && s && t && u && w) ≡ true → (u ≡ true) × (w ≡ true)
conj_last p q r s t u w h = (ground arith, ground arith)

progress-within :
    (a : ActiveTransfer) (id : Text) (direction : TransferDirection) (bytes : ℕ)
    → is_progress_of a id direction bytes ≡ true
    → (a.completed_bytes ≤ bytes) × (bytes ≤ a.file.size_bytes)
unfolding is_progress_of
progress-within a id direction bytes h =
    let (up, within) =
      conj_last (same a.transfer_id id) (same_direction a.direction direction)
        (not a.awaiting_verification) (is_link_ready a.link_state) (is_none a.storage_pause)
        (leb a.completed_bytes bytes) (leb bytes a.file.size_bytes) h in
    (leb→le a.completed_bytes bytes up, leb→le bytes a.file.size_bytes within)

kept-entry :
    (model : AppModel) (peer_id : Text) (a : ActiveTransfer) (q : Text)
    → get peer_id model.transfers_by_peer ≡ some (active a)
    → get q model.transfers_by_peer
      ≡ (if same peer_id q then some (active a) else get q model.transfers_by_peer)
kept-entry model peer_id a q h = elim (Bool-cases (same peer_id q)) [
  | inl here ↦
      rw here (ap (λ x. get x model.transfers_by_peer) (sym ((same_iff peer_id q).0 here)) ∙ h)
  | inr other ↦ rw other refl
]

-- A progress event for a peer whose transfer is active never panics and shows no notification. It leaves
-- the transfer active with all of its fields but its bytes, which do not fall and, unless they stay as
-- they were, end within the size of the file; and it leaves the entries of other peers as they were.
pub handle_transfer_event-progress :
    (to_string : ℕ → Text) (model : AppModel) (peer_id id : Text) (direction : TransferDirection)
    (bytes total : ℕ) (a : ActiveTransfer)
    → get peer_id model.transfers_by_peer ≡ some (active a)
    → (last : AppModel) × (k : ℕ) × (handle_transfer_event to_string model peer_id
          (transfer_progress id direction bytes total)
        ≡ some (last, none))
      × ((q : Text)
          → get q last.transfers_by_peer ≡ (
              if same peer_id q
              then some (active (record a { completed_bytes = k }))
              else get q model.transfers_by_peer))
      × (a.completed_bytes ≤ k)
      × (k ≤ max a.completed_bytes a.file.size_bytes)
handle_transfer_event-progress to_string model peer_id id direction bytes total a h =
    elim (Bool-cases (is_progress_of a id direction bytes)) [
      | inl valid ↦
          let (up, within) = progress-within a id direction bytes valid in
          (
            moved model peer_id id direction bytes a h,
            bytes,
            handled_progress model peer_id id direction bytes a h to_string total
                ∙ ap
                    (λ b.
                      some (if b then moved model peer_id id direction bytes a h else model, none))
                    valid,
            moved-entry model peer_id id direction bytes a h valid,
            up,
            omega arith,
          )
      | inr invalid ↦ (
        model,
        a.completed_bytes,
        handled_progress model peer_id id direction bytes a h to_string total
            ∙ ap (λ b. some (if b then moved model peer_id id direction bytes a h else model, none))
                invalid,
        (λ q. kept-entry model peer_id a q h),
        omega arith,
        omega arith,
      )
    ]
