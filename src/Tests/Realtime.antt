-- ===== src/Tests/Realtime.antt =====
-- An instance of the result on the messages from a browser.
use p2p_transmission.Prelude.{◌≤◌, ◌≡◌, ◌↔◌, some, Result, ok}
use p2p_transmission.Prelude.Text.{Text, text, byte_len}
use p2p_transmission.Protocol.Limits.{max_json_frame_bytes}
use p2p_transmission.Protocol.Version.{current_protocol}
use p2p_transmission.Protocol.Realtime.{
  ClientRealtimeMessage, attach_room, client_version, parse_client_message,
}
use p2p_transmission.Protocol.Realtime.Accepted.{HasFields, parse_client_message-HasFields}

abbrev hello : ClientRealtimeMessage
hello = attach_room current_protocol (text "ABC234") (text "peer_1") (some 3)

-- A reader that reads one message from every text.
abbrev reads_hello : Text → Result Text ClientRealtimeMessage
reads_hello input = ok hello

parse_client_message-HasFields_example :
    (parse_client_message reads_hello (text "hello") ≡ ok hello) ↔ (
      ((byte_len (text "hello") ≤ max_json_frame_bytes) × (reads_hello (text "hello") ≡ ok hello))
      × ((client_version hello ≡ current_protocol) × HasFields hello))
parse_client_message-HasFields_example =
    parse_client_message-HasFields reads_hello (text "hello") hello
