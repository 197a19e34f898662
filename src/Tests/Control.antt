-- ===== src/Tests/Control.antt =====
-- Instances of the results on control messages.
use p2p_transmission.Prelude.{◌≡◌, ◌↔◌, [], ◌∷◌, some, ok}
use p2p_transmission.Prelude.Text.{Text, text}
use p2p_transmission.Protocol.Version.{current_protocol}
use p2p_transmission.Protocol.Control.{
  FileManifest, FileDigest, manifest, streamed, stream_complete, validate_message,
}
use p2p_transmission.Protocol.Control.Fields.{IsToken}
use p2p_transmission.Protocol.Control.Accepted.{IsOffer, manifest-IsOffer}
use p2p_transmission.Protocol.Control.Summary.{IsSummary, stream_complete-IsSummary}

abbrev photo : FileManifest
photo = record {
  file_id = text "file_1";
  name = text "photo.jpg";
  mime = some (text "image/jpeg");
  size_bytes = 5000;
}

abbrev digest : Text
digest = text "00112233445566778899aabbccddeeff00112233445566778899aabbccddeeff"

abbrev photo_digest : FileDigest
photo_digest = record { file_id = text "file_1"; size_bytes = 5000; blake3 = digest }

manifest-IsOffer_example :
    (validate_message (record {
      version = current_protocol;
      transfer_id = text "transfer_1";
      body = manifest (streamed 8_388_608) (photo ∷ []);
    })
      ≡ ok tt)
    ↔ (((current_protocol ≡ current_protocol) × IsToken (text "transfer_1"))
        × IsOffer (streamed 8_388_608) (photo ∷ []))
manifest-IsOffer_example =
    manifest-IsOffer current_protocol (text "transfer_1") (streamed 8_388_608) (photo ∷ [])

stream_complete-IsSummary_example :
    (validate_message (record {
      version = current_protocol;
      transfer_id = text "transfer_1";
      body = stream_complete 5000 (photo_digest ∷ []);
    })
      ≡ ok tt)
    ↔ (((current_protocol ≡ current_protocol) × IsToken (text "transfer_1"))
        × IsSummary 5000 (photo_digest ∷ []))
stream_complete-IsSummary_example =
    stream_complete-IsSummary current_protocol (text "transfer_1") 5000 (photo_digest ∷ [])
