-- ===== src/Protocol/Realtime/Accepted.antt =====
-- Which client messages are accepted, described without the validators.
use p2p_transmission.Prelude.{
  ℕ, ◌≤◌, ◌<◌, ◌≡◌, refl, ap, ◌∙◌, subst, ◌↔◌, true, false, not, ◌&&◌, ltb, All, Option, none, some,
  arith, Result, ok, ◌>>◌, reject_if, map_err, >>=-eq-ok, map_err-eq-ok, ok-injective,
}
use p2p_transmission.Prelude.Text.{Text, text, byte_len, is_control, is_ascii_alphanumeric}
use p2p_transmission.Protocol.Limits.{
  Checked, invalid_json, is_line_char, max_json_frame_bytes, max_signal_bytes, validate_text,
  validate_token, validate_room_code, validate_multiline_text,
}
use p2p_transmission.Protocol.Version.{current_protocol, validate_version}
use p2p_transmission.Protocol.Control.Files.{reject_if-ok}
use p2p_transmission.Protocol.Control.Fields.{
  IsToken, IsLine, any_iff, all_iff, validate_token_iff, validate_text_iff,
}
use p2p_transmission.Protocol.Control.Accepted.{validate_version_iff}
use p2p_transmission.Protocol.Realtime.{
  Signal, offer, answer, ice_candidate, validate_sdp_mid, validate_signal, ClientRealtimeMessage,
  attach_room, watch_join_request, detach_room, signal, heartbeat, ack_event, client_version,
  validate_client_fields, validate_client, parse_client_message,
}

-- Six ASCII letters and digits.
abbrev pub IsRoomCode : Text → Type 0
IsRoomCode code = (byte_len code ≡ 6) × All (λ (c : ℕ). is_ascii_alphanumeric c ≡ true) code

validate_room_code_iff : (code : Text) → (validate_room_code code ≡ ok tt) ↔ IsRoomCode code
unfolding validate_room_code
validate_room_code_iff code = (
  λ h. (ground arith, (all_iff is_ascii_alphanumeric code).0 (ground arith)),
  λ (n, a). ground (arith, (all_iff is_ascii_alphanumeric code).1 a),
)

-- A text of 1 to `max` bytes with no control characters but line ends and tabs.
pub record IsLines (max : ℕ) (value : Text) : Type 0 where
  pub nonempty : 0 < byte_len value
  pub fits : byte_len value ≤ max
  pub printable : All (λ (c : ℕ). (is_control c && not (is_line_char c)) ≡ false) value

validate_multiline_text_iff :
    (value field : Text) (max : ℕ)
    → (validate_multiline_text value field max ≡ ok tt) ↔ IsLines max value
unfolding validate_multiline_text
validate_multiline_text_iff value field max = (
  λ h. record {
    nonempty = ground arith;
    fits = ground arith;
    printable = (any_iff (λ (c : ℕ). is_control c && not (is_line_char c)) value).0 (ground arith);
  },
  λ l. ground (
    arith,
    l.nonempty,
    l.fits,
    (any_iff (λ (c : ℕ). is_control c && not (is_line_char c)) value).1 l.printable,
  ),
)

abbrev pub IsMid : Option Text → Type 0
IsMid none = Unit
IsMid (some mid) = IsLine 256 mid

abbrev pub IsSignal : Signal → Type 0
IsSignal (offer sdp) = IsLines max_signal_bytes sdp
IsSignal (answer sdp) = IsLines max_signal_bytes sdp
IsSignal (ice_candidate candidate sdp_mid sdp_m_line_index) =
    IsLine max_signal_bytes candidate × IsMid sdp_mid

-- Two checks in a row.
both_iff :
    {P Q : Type 0} (first second : Checked)
    → ((first ≡ ok tt) ↔ P)
    → ((second ≡ ok tt) ↔ Q)
    → ((first >> second) ≡ ok tt) ↔ (P × Q)
both_iff first second p q =
    (λ h. let (_, a, b) = >>=-eq-ok first _ h in (p.0 a, q.0 b), λ (a, b). rw (p.1 a) (q.1 b))

validate_sdp_mid_iff : (mid : Option Text) → (validate_sdp_mid mid ≡ ok tt) ↔ IsMid mid
validate_sdp_mid_iff none = (λ h. tt, λ h. refl)
validate_sdp_mid_iff (some mid) = validate_text_iff mid (text "sdp_mid") 256

validate_signal_iff : (s : Signal) → (validate_signal s ≡ ok tt) ↔ IsSignal s
unfolding validate_signal
validate_signal_iff (offer sdp) = validate_multiline_text_iff sdp (text "sdp") max_signal_bytes
validate_signal_iff (answer sdp) = validate_multiline_text_iff sdp (text "sdp") max_signal_bytes
validate_signal_iff (ice_candidate candidate mid index) =
    both_iff (validate_text candidate (text "candidate") max_signal_bytes) (validate_sdp_mid mid)
      (validate_text_iff candidate (text "candidate") max_signal_bytes) (validate_sdp_mid_iff mid)

-- What each message must carry.
abbrev pub HasFields : ClientRealtimeMessage → Type 0
HasFields (attach_room version room_code peer_id last_revision) =
    IsRoomCode room_code × IsToken peer_id
HasFields (watch_join_request version room_code request_id last_revision) =
    IsRoomCode room_code × IsToken request_id
HasFields (detach_room version room_code) = IsRoomCode room_code
HasFields (signal version room_code to_peer_id negotiation_id body) =
    IsRoomCode room_code × (IsToken to_peer_id × (IsToken negotiation_id × IsSignal body))
HasFields (heartbeat version nonce) = IsToken nonce
HasFields (ack_event version event_id) = IsToken event_id

validate_client_fields_iff :
    (m : ClientRealtimeMessage) → (validate_client_fields m ≡ ok tt) ↔ HasFields m
unfolding validate_client_fields
validate_client_fields_iff (attach_room version room_code peer_id last_revision) =
    both_iff (validate_room_code room_code) (validate_token peer_id (text "peer_id"))
      (validate_room_code_iff room_code) (validate_token_iff peer_id (text "peer_id"))
validate_client_fields_iff (watch_join_request version room_code request_id last_revision) =
    both_iff (validate_room_code room_code) (validate_token request_id (text "request_id"))
      (validate_room_code_iff room_code) (validate_token_iff request_id (text "request_id"))
validate_client_fields_iff (detach_room version room_code) = validate_room_code_iff room_code
validate_client_fields_iff (signal version room_code to_peer_id negotiation_id body) =
    both_iff (validate_room_code room_code)
      (validate_token to_peer_id (text "to_peer_id")
        >> (validate_token negotiation_id (text "negotiation_id") >> validate_signal body))
      (validate_room_code_iff room_code)
      (both_iff (validate_token to_peer_id (text "to_peer_id"))
        (validate_token negotiation_id (text "negotiation_id") >> validate_signal body)
        (validate_token_iff to_peer_id (text "to_peer_id"))
        (both_iff (validate_token negotiation_id (text "negotiation_id")) (validate_signal body)
          (validate_token_iff negotiation_id (text "negotiation_id")) (validate_signal_iff body)))
validate_client_fields_iff (heartbeat version nonce) = validate_token_iff nonce (text "nonce")
validate_client_fields_iff (ack_event version event_id) =
    validate_token_iff event_id (text "event_id")

validate_client_iff :
    (m : ClientRealtimeMessage)
    → (validate_client m ≡ ok tt) ↔ ((client_version m ≡ current_protocol) × HasFields m)
unfolding validate_client
validate_client_iff m =
    both_iff (validate_version (client_version m)) (validate_client_fields m)
      (validate_version_iff (client_version m)) (validate_client_fields_iff m)

-- A text is accepted as the message `m` exactly when it has at most max_json_frame_bytes bytes, the
-- JSON reader reads `m` from it, the version of `m` is the current one, and every field of `m` that the
-- server relies on has its form: room codes of six ASCII letters and digits, tokens, and signal
-- bodies within their limits.
pub parse_client_message-HasFields :
    (from_str : Text → Result Text ClientRealtimeMessage) (input : Text) (m : ClientRealtimeMessage)
    → (parse_client_message from_str input ≡ ok m) ↔ (
        ((byte_len input ≤ max_json_frame_bytes) × (from_str input ≡ ok m))
        × ((client_version m ≡ current_protocol) × HasFields m))
unfolding parse_client_message
parse_client_message-HasFields from_str input m = (accepted, accepts)
  where
    accepted :
        parse_client_message from_str input ≡ ok m
        → ((byte_len input ≤ max_json_frame_bytes) × (from_str input ≡ ok m))
          × ((client_version m ≡ current_protocol) × HasFields m)
    accepted h =
        let (_, short, h₁) =
          >>=-eq-ok (reject_if (ltb max_json_frame_bytes (byte_len input)) _) _ h in
        let (n, read, h₂) = >>=-eq-ok (map_err invalid_json (from_str input)) _ h₁ in
        let (_, valid, h₃) = >>=-eq-ok (validate_client n) _ h₂ in
        let same_message : n ≡ m = ok-injective h₃ in
        let fits : byte_len input ≤ max_json_frame_bytes = ground (arith, reject_if-ok _ _ short) in
        (
          (fits, map_err-eq-ok invalid_json (from_str input) read ∙ ap ok same_message),
          (validate_client_iff m).0 (subst (λ x. validate_client x ≡ ok tt) same_message valid),
        )

    accepts :
        ((byte_len input ≤ max_json_frame_bytes) × (from_str input ≡ ok m))
          × ((client_version m ≡ current_protocol) × HasFields m)
        → parse_client_message from_str input ≡ ok m
    accepts ((short, read), v) =
        let fits : ltb max_json_frame_bytes (byte_len input) ≡ false = ground arith in
        rw (fits, read, (validate_client_iff m).1 v)
