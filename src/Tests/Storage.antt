-- ===== src/Tests/Storage.antt =====
-- A room that is stored and loaded.
use p2p_transmission.Prelude.{none, ◌<◌, ◌≡◌, refl, arith, [], ◌∷◌, ok}
use p2p_transmission.Prelude.Text.{text, find_char, trim}
use p2p_transmission.OrdMap.Order.{same, text_cmp}
use p2p_transmission.OrdMap.Map.{get, insert}
use p2p_transmission.OrdMap.Values.{any_value}
use p2p_transmission.Domain.Ids.{parse_id, validate_id, parse_room_code}
use p2p_transmission.Domain.Room.State.{Room, attach}
use p2p_transmission.Domain.Room.Commands.{handle, do_request_join, do_attach, commit}
use p2p_transmission.Domain.Room.Restore.{membership_snapshots, join_request_snapshots}
use p2p_transmission.Domain.Room.Invariant.{IsValid}
use p2p_transmission.Domain.Room.Preservation.{run, new_room-IsValid, run-IsValid}
use p2p_transmission.Server.Storage.Rows.{StoredRoom, store_room, load_room}
use p2p_transmission.Server.Storage.Database.{Database}
use p2p_transmission.Server.Storage.Writing.{IsStorable, IsAccepted}
use p2p_transmission.Server.Storage.RoundTrip.{load_room-store_room}
use p2p_transmission.Tests.RoomRuns.{owner_1, first_room, ask}

abbrev kept_room : Room
kept_room = run first_room (ask ∷ attach owner_1 (text "peer_1") 15 ∷ [])

kept_room-IsValid : IsValid kept_room
kept_room-IsValid =
    run-IsValid first_room (ask ∷ attach owner_1 (text "peer_1") 15 ∷ [])
      (new_room-IsValid (text "room_1") (text "ABC123") owner_1 1000)

kept_room-IsStorable : IsStorable kept_room
unfolding parse_id validate_id parse_room_code membership_snapshots join_request_snapshots run
    handle do_request_join do_attach commit get insert same text_cmp any_value find_char trim
kept_room-IsStorable = record {
  id_parsed = refl;
  code_parsed = refl;
  owner_parsed = refl;
  revision_fits = omega arith;
  deadline_fits = omega arith;
  members = ((refl, refl), tt);
  requests = (((refl, refl), (omega arith, omega arith)), tt);
}

-- A database without other rooms, where the sessions of the room are known.
abbrev empty_database : Database
empty_database = record { answer = λ statement. none; commit = none }

kept_room-IsAccepted : IsAccepted empty_database kept_room (text "request_0") 20
unfolding membership_snapshots join_request_snapshots run handle do_request_join do_attach commit
    get insert same text_cmp any_value
kept_room-IsAccepted = record {
  room = refl;
  members = (refl, tt);
  requests = (refl, tt);
  commit = refl;
}

kept_room_early : 20 < kept_room.expires_at
unfolding run handle do_request_join do_attach commit get insert same text_cmp any_value
kept_room_early = omega arith

load_room-store_room_example :
    (rows : StoredRoom) × (store_room empty_database kept_room (text "request_0") 20 ≡ ok rows)
    × (load_room rows ≡ ok kept_room)
load_room-store_room_example =
    load_room-store_room empty_database kept_room (text "request_0") 20 (omega arith)
      kept_room_early kept_room-IsValid kept_room-IsStorable kept_room-IsAccepted
