-- ===== src/Tests/Rooms.antt =====
-- Instances of the results on rooms.
use p2p_transmission.Prelude.{◌≡◌, ◌↔◌, refl, [], ◌∷◌, some, ok, arith}
use p2p_transmission.Prelude.Text.{text}
use p2p_transmission.OrdMap.Order.{same, text_cmp, text_order}
use p2p_transmission.OrdMap.Map.{get, insert}
use p2p_transmission.OrdMap.Sorted.{Sorted}
use p2p_transmission.OrdMap.Values.{any_value}
use p2p_transmission.Domain.Room.State.{
  Room, RoomCommand, request_join, leave, active, left, receiver, pending, JoinRequest,
}
use p2p_transmission.Domain.Room.Commands.{
  changed_outcome, unchanged, create, handle, do_request_join, do_decide_join, do_leave, commit,
  set_request,
}
use p2p_transmission.Domain.Room.Effect.{Effect, requested, handle-Effect, Transition-handle}
use p2p_transmission.Domain.Room.Invariant.{IsValid}
use p2p_transmission.Domain.Room.Preservation.{
  run, run-create-IsValid, new_room-IsValid, run-IsValid,
}
use p2p_transmission.Domain.Room.Replies.{IsTruthful, handle-IsTruthful, handle-replay}
use p2p_transmission.Domain.Room.Access.{IsAdmission, IsShut, member-IsAdmission, run-IsShut}
use p2p_transmission.Domain.Room.Requests.{KeepsRequest, run-KeepsRequest}
use p2p_transmission.Domain.Room.Exclusion.{IsExclusive, run-create-IsExclusive}
use p2p_transmission.Domain.Room.Storage.{
  IsVerified, IsRestored, restore-snapshots, restore-IsVerified, verify_invariants-IsVerified,
}
use p2p_transmission.Domain.Room.Restore.{
  restore, verify_invariants, membership_snapshots, join_request_snapshots,
}
use p2p_transmission.Domain.Room.Leaving.{leave_keeps_request}
use p2p_transmission.Tests.RoomRuns.{
  owner_1, receiver_1, request_1, first_room, ask, admit, join_and_attach,
}

abbrev asked_room : Room
asked_room = run first_room (ask ∷ [])

abbrev joined_room : Room
joined_room = run first_room (ask ∷ admit ∷ [])

abbrev first_request : JoinRequest
first_request = record { session_id = receiver_1; expires_at = 900; state = pending }

handle-Effect_example : Effect asked_room admit (handle asked_room admit)
handle-Effect_example = handle-Effect asked_room admit

Transition-handle_example :
    handle first_room ask ≡ commit (set_request first_room request_1 first_request)
unfolding get any_value same text_cmp
Transition-handle_example =
    Transition-handle {r = first_room} {r' = set_request first_room request_1 first_request}
      {c = ask}
      (requested (record { open_state = refl; before_deadline = omega arith }) (omega arith)
        (omega arith) refl refl refl)

run-create-IsValid_example : IsValid (run first_room join_and_attach)
unfolding create
run-create-IsValid_example =
    run-create-IsValid (text "room_1") (text "ABC123") owner_1 0 1000 first_room changed_outcome
      join_and_attach refl

run-create-IsExclusive_example : IsExclusive (run first_room join_and_attach)
unfolding create
run-create-IsExclusive_example =
    run-create-IsExclusive (text "room_1") (text "ABC123") owner_1 0 1000 first_room changed_outcome
      join_and_attach refl

member-IsAdmission_example : IsAdmission asked_room receiver_1 admit
unfolding run handle do_request_join do_decide_join commit get insert same text_cmp any_value
member-IsAdmission_example = member-IsAdmission asked_room admit receiver_1 refl refl

run-KeepsRequest_example :
    KeepsRequest first_request (get request_1 (run asked_room (admit ∷ [])).join_requests)
unfolding run handle do_request_join commit get insert same text_cmp any_value
run-KeepsRequest_example =
    run-KeepsRequest asked_room (admit ∷ []) request_1 first_request
      (run-IsValid first_room (ask ∷ [])
        (new_room-IsValid (text "room_1") (text "ABC123") owner_1 1000))
      refl

handle-IsTruthful_example : IsTruthful first_room (handle first_room ask)
handle-IsTruthful_example = handle-IsTruthful first_room ask (omega arith)

handle-replay_example : handle asked_room ask ≡ unchanged asked_room
unfolding run handle do_request_join commit get insert same text_cmp any_value
handle-replay_example = handle-replay first_room asked_room ask changed_outcome refl refl

run-IsShut_example :
    IsShut
      (run asked_room (leave owner_1 ∷ []))
      (run (run asked_room (leave owner_1 ∷ [])) (admit ∷ []))
unfolding run handle do_leave do_request_join commit get insert same text_cmp any_value
run-IsShut_example = run-IsShut (run asked_room (leave owner_1 ∷ [])) (admit ∷ []) refl

restore-snapshots_example :
    restore asked_room.id asked_room.code asked_room.owner_id asked_room.expires_at asked_room.state
      asked_room.revision
      (membership_snapshots asked_room)
      (join_request_snapshots asked_room)
    ≡ ok asked_room
restore-snapshots_example = restore-snapshots asked_room (
    run-IsValid first_room (ask ∷ [])
      (new_room-IsValid (text "room_1") (text "ABC123") owner_1 1000))

restore-IsVerified_example :
    IsVerified first_room
    × (Sorted first_room.memberships × IsRestored first_room.expires_at first_room.join_requests)
restore-IsVerified_example =
    restore-IsVerified (text "room_1") (text "ABC123") owner_1 1000 active 1
      (membership_snapshots first_room) (join_request_snapshots first_room) first_room
      (restore-snapshots first_room (new_room-IsValid (text "room_1") (text "ABC123") owner_1 1000))

verify_invariants-IsVerified_example :
    (verify_invariants first_room ≡ ok tt) ↔ IsVerified first_room
verify_invariants-IsVerified_example = verify_invariants-IsVerified first_room

-- The receiver joins, leaves and asks again under another request.
abbrev left_room : Room
left_room = run first_room (ask ∷ admit ∷ leave receiver_1 ∷ [])

abbrev ask_again : RoomCommand
ask_again = request_join (text "request_2") receiver_1 40 900

leave_keeps_request_example :
    (handle (run left_room (ask_again ∷ [])) (leave receiver_1)
      ≡ unchanged (run left_room (ask_again ∷ [])))
    × (get (text "request_2") (run left_room (ask_again ∷ [])).join_requests ≡ some first_request)
unfolding run handle do_leave do_request_join do_decide_join commit get insert same text_cmp
    any_value
leave_keeps_request_example =
    leave_keeps_request left_room (run left_room (ask_again ∷ [])) (text "request_2") receiver_1 40
      900 (record { role = receiver; state = left }) refl (λ e. cc) refl
