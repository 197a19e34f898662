-- ===== src/Tests/Hub.antt =====
-- A run of the connection hub, and instances of the results at it: a session opens a second
-- connection, which takes the room over from its first one.
use p2p_transmission.Prelude.{
  ◌≡◌, refl, ◌≢◌, ◌↔◌, true, false, if◌then◌else◌, none, some, List, [], ◌∷◌, any, arith,
}
use p2p_transmission.Prelude.Text.{text}
use p2p_transmission.OrdMap.Map.{get, insert, contains_key}
use p2p_transmission.OrdMap.Remove.{remove}
use p2p_transmission.OrdMap.Order.{text_order, pair_order, same, text_cmp}
use p2p_transmission.Protocol.Version.{current_protocol}
use p2p_transmission.Protocol.Realtime.{ServerRealtimeMessage, peer_offline}
use p2p_transmission.Server.Hub.State.{
  ConnectionId, ConnectionSet, ConnectionEntry, Attachment, Sender, Outbound, message, HubState,
  SendOutcome, sent,
}
use p2p_transmission.Server.Hub.Mappings.{
  enter_room, detach_attached, detach_watched, detach_own, replace_all, unique_existing,
  enter_attached,
}
use p2p_transmission.Server.Hub.Operations.{empty_hub, register, attach_found, attach, unregister}
use p2p_transmission.Server.Hub.Sending.{post, send_to_peer, disconnect_room}
use p2p_transmission.Server.Hub.Invariant.{Routed, claims_room}
use p2p_transmission.Server.Hub.Reachable.{
  registers, attaches, Reachable, start, after, Reachable-Routed,
}
use p2p_transmission.Server.Hub.Delivery.{
  IsDelivery, send_to_peer-IsDelivery, connections-disconnect_room,
}
use p2p_transmission.Server.Hub.Takeover.{is_replaced, connections-attach, unregister-attach}

-- Walks a set in the order of its members.
abbrev members : ConnectionSet → List ConnectionId
members [] = []
members ((c, tt) ∷ rest) = c ∷ members rest

members-contains_key :
    (cs : ConnectionSet) (x : ConnectionId) → any (λ y. same y x) (members cs) ≡ contains_key x cs
unfolding contains_key
members-contains_key [] x = refl
members-contains_key ((c, tt) ∷ rest) x = ground (arith, members-contains_key rest x)

abbrev one_registered : HubState
one_registered = register empty_hub (text "c_1") 1 (text "session_1")

abbrev one_attached : HubState
one_attached =
    (attach members one_registered (text "c_1") (text "room_1") (text "ABC234")
      (text "peer_1")).state

abbrev two_registered : HubState
two_registered = register one_attached (text "c_2") 2 (text "session_2")

abbrev two_attached : HubState
two_attached =
    (attach members two_registered (text "c_2") (text "room_1") (text "ABC234")
      (text "peer_2")).state

abbrev three_registered : HubState
three_registered = register two_attached (text "c_3") 3 (text "session_1")

c_2_is_new : get (text "c_2") one_attached.connections ≡ none
unfolding register attach attach_found replace_all unique_existing detach_own detach_attached
    detach_watched enter_attached enter_room get insert contains_key same text_cmp
c_2_is_new = refl

c_3_is_new : get (text "c_3") two_attached.connections ≡ none
unfolding register attach attach_found replace_all unique_existing detach_own detach_attached
    detach_watched enter_attached enter_room get insert contains_key same text_cmp
c_3_is_new = refl

-- The third connection is registered, and the first one stands in the room.
abbrev third : ConnectionEntry
third = record { session_id = text "session_1"; sender = 3; attachment = none; join_watch = none }

abbrev first_place : Attachment
first_place = record {
  room_id = text "room_1";
  room_code = text "ABC234";
  session_id = text "session_1";
  peer_id = text "peer_1";
}

abbrev first : ConnectionEntry
first = record {
  session_id = text "session_1";
  sender = 1;
  attachment = some first_place;
  join_watch = none;
}

third_present : get (text "c_3") three_registered.connections ≡ some third
unfolding register attach attach_found replace_all unique_existing detach_own detach_attached
    detach_watched enter_attached enter_room get insert contains_key same text_cmp
third_present = refl

first_present : get (text "c_1") three_registered.connections ≡ some first
unfolding register attach attach_found replace_all unique_existing detach_own detach_attached
    detach_watched enter_attached enter_room get insert contains_key same text_cmp
first_present = refl

first_replaced :
    is_replaced three_registered (text "room_1") (text "session_1") (text "peer_1") (text "c_1")
    ≡ true
unfolding register attach attach_found replace_all unique_existing detach_own detach_attached
    detach_watched enter_attached enter_room get insert contains_key same text_cmp
first_replaced = refl

third_differs : same (text "c_3") (text "c_1") ≡ false
unfolding same text_cmp
third_differs = refl

run_of_three : Reachable members three_registered
unfolding get
run_of_three =
    after
      (after
        (after
          (after (after start (registers (text "c_1") 1 (text "session_1") refl))
            (attaches (text "c_1") (text "room_1") (text "ABC234") (text "peer_1")))
          (registers (text "c_2") 2 (text "session_2") c_2_is_new))
        (attaches (text "c_2") (text "room_1") (text "ABC234") (text "peer_2")))
      (registers (text "c_3") 3 (text "session_1") c_3_is_new)

Reachable-Routed_example : Routed three_registered
Reachable-Routed_example = Reachable-Routed members members-contains_key run_of_three

connections-attach_example :
    get
      (text "c_1")
      (attach members three_registered
        (text "c_3")
        (text "room_1")
        (text "ABC234")
        (text "peer_1")).state.connections
    ≡ (if same (text "c_3") (text "c_1")
        then some (record third { attachment = some first_place; join_watch = none })
        else if is_replaced three_registered
            (text "room_1")
            (text "session_1")
            (text "peer_1")
            (text "c_1")
        then none
        else get (text "c_1") three_registered.connections)
connections-attach_example =
    connections-attach members members-contains_key three_registered run_of_three (text "c_3")
      (text "room_1") (text "ABC234") (text "peer_1") third third_present (text "c_1")

abbrev after_takeover : HubState
after_takeover =
    (attach members three_registered (text "c_3") (text "room_1") (text "ABC234")
      (text "peer_1")).state

unregister-attach_example : unregister after_takeover (text "c_1") ≡ (
  record after_takeover {
    evicted_attachments = remove (text "c_1") after_takeover.evicted_attachments;
  },
  some first_place,
)
unregister-attach_example =
    unregister-attach members members-contains_key three_registered run_of_three (text "c_3")
      (text "room_1") (text "ABC234") (text "peer_1") third third_present (text "c_1") first
      first_place third_differs first_present refl first_replaced

abbrev never_full : Sender → Outbound → SendOutcome
never_full sender outbound = sent

abbrev gone_notice : ServerRealtimeMessage
gone_notice = peer_offline current_protocol (text "ABC234") 4 (text "peer_9")

abbrev one_notice : List (Sender × Outbound)
one_notice = (2, message gone_notice) ∷ []

one_notice_present : one_notice ≢ []
one_notice_present h = cc

send_to_peer-IsDelivery_example :
    ((send_to_peer never_full three_registered (text "c_1") (text "peer_2") gone_notice).sends
      ≡ one_notice)
    ↔ IsDelivery three_registered (text "c_1") (text "peer_2") gone_notice one_notice
send_to_peer-IsDelivery_example =
    send_to_peer-IsDelivery members members-contains_key three_registered run_of_three never_full
      (text "c_1") (text "peer_2") gone_notice one_notice one_notice_present

-- The message reaches the second connection's queue.
send_run :
    (send_to_peer never_full three_registered (text "c_1") (text "peer_2") gone_notice).sends
    ≡ one_notice
unfolding send_to_peer post register attach attach_found replace_all unique_existing detach_own
    detach_attached detach_watched enter_attached enter_room get insert contains_key same text_cmp
send_run = refl

connections-disconnect_room_example :
    get
      (text "c_1")
      (disconnect_room members three_registered
        (text "room_1")
        4003
        (text "room expired")).state.connections
    ≡ (if claims_room (get (text "c_1") three_registered.connections) (text "room_1")
        then none
        else get (text "c_1") three_registered.connections)
connections-disconnect_room_example =
    connections-disconnect_room members members-contains_key three_registered run_of_three
      (text "room_1") 4003 (text "room expired") (text "c_1")
