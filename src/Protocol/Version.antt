-- ===== src/Protocol/Version.antt =====
-- rust/crates/protocol/src/version.rs: the one protocol version that is accepted.
use p2p_transmission.Prelude.{ℕ, ◌==◌, ◌&&◌, not, reject_if}
use p2p_transmission.Protocol.Limits.{Checked, unsupported_version}

pub record ProtocolVersion : Type 0 where
  pub major : ℕ
  pub minor : ℕ

abbrev pub current_protocol : ProtocolVersion
current_protocol = record { major = 5; minor = 1 }

-- `ProtocolVersion::validate`.
unfoldable pub validate_version : ProtocolVersion → Checked
validate_version version =
    reject_if
      (not (version.major == current_protocol.major && version.minor == current_protocol.minor))
      (unsupported_version version.major version.minor)
