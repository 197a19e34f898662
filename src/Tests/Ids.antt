-- ===== src/Tests/Ids.antt =====
-- Instances of the results on binary ids.
use p2p_transmission.Prelude.{◌≡◌, refl, All, length, some}
use p2p_transmission.Prelude.Text.{text}
use p2p_transmission.Protocol.Bytes.{IsByte}
use p2p_transmission.Rtc.BinaryId.{format_binary_id, parse_binary_id, parse_hex, strip_prefix}
use p2p_transmission.Rtc.BinaryId.RoundTrip.{parse-format_binary_id, format-parse_binary_id}
use p2p_transmission.Tests.Wire.{file_bytes, IsByte-all}

parse-format_binary_id_example :
    parse_binary_id (format_binary_id (text "file") file_bytes) (text "file") ≡ some file_bytes
parse-format_binary_id_example =
    parse-format_binary_id (text "file") file_bytes (IsByte-all file_bytes refl) refl

format-parse_binary_id_example :
    (format_binary_id (text "file") file_bytes ≡ text "file_02020202020202020202020202020202")
    × (length file_bytes ≡ 16)
    × All IsByte file_bytes
unfolding parse_binary_id parse_hex strip_prefix
format-parse_binary_id_example =
    format-parse_binary_id (text "file_02020202020202020202020202020202") (text "file") file_bytes
      refl
