-- ===== src/Tests/RoomRuns.antt =====
-- A room, its members and two runs of commands, as in the tests of rust/crates/domain/src/room.rs.
use p2p_transmission.Prelude.{◌≡◌, refl, List, [], ◌∷◌, ◌++◌, err}
use p2p_transmission.Prelude.Text.{Text, text}
use p2p_transmission.OrdMap.Order.{same, text_cmp}
use p2p_transmission.OrdMap.Map.{get, insert}
use p2p_transmission.OrdMap.Values.{any_value}
use p2p_transmission.Domain.Room.State.{
  Room, RoomCommand, request_join, decide_join, attach, detach, approve, reject, terminal_request,
}
use p2p_transmission.Domain.Room.Commands.{
  new_room, handle, do_request_join, do_decide_join, do_attach, do_detach,
}
use p2p_transmission.Domain.Room.Preservation.{run}

abbrev pub owner_1 : Text
owner_1 = text "owner_1"

abbrev pub receiver_1 : Text
receiver_1 = text "receiver_1"

abbrev pub request_1 : Text
request_1 = text "request_1"

abbrev pub first_room : Room
first_room = new_room (text "room_1") (text "ABC123") owner_1 1000

abbrev pub ask : RoomCommand
ask = request_join request_1 receiver_1 10 900

abbrev pub admit : RoomCommand
admit = decide_join owner_1 request_1 approve 20

abbrev pub join_and_attach : List RoomCommand
join_and_attach =
    ask
    ∷ admit
    ∷ attach receiver_1 (text "peer_old") 30
    ∷ attach receiver_1 (text "peer_new") 31
    ∷ []

-- The detach of a peer that was replaced changes nothing: five revisions are counted.
stale_detach :
    (run first_room (join_and_attach ++ detach receiver_1 (text "peer_old") ∷ [])).revision ≡ 5
unfolding run handle do_request_join do_decide_join do_attach do_detach get insert same text_cmp
    any_value
stale_detach = refl

-- An approval cannot be reversed.
reversed :
    (handle (run first_room (ask ∷ admit ∷ [])) (decide_join owner_1 request_1 reject 30)).1
    ≡ err terminal_request
unfolding run handle do_request_join do_decide_join get insert same text_cmp any_value
reversed = refl
