-- ===== src/Tests/Plans.antt =====
-- A file that is planned as buffered.
use p2p_transmission.Prelude.{◌≡◌, ◌↔◌, none, [], ◌∷◌, ok}
use p2p_transmission.Prelude.Text.{text}
use p2p_transmission.Transfer.{TransferFile}
use p2p_transmission.Protocol.Control.{buffered}
use p2p_transmission.Rtc.Manifest.{TransferPlan, plan_transfer}
use p2p_transmission.Rtc.Plans.{IsPlan, plan_transfer-IsPlan}

abbrev note_file : TransferFile
note_file = record { name = text "note"; mime = none; size_bytes = 42 }

abbrev note_plan : TransferPlan
note_plan = record { total_bytes = 42; mode = buffered }

plan_transfer-IsPlan_example :
    (plan_transfer (note_file ∷ []) ≡ ok note_plan) ↔ IsPlan (note_file ∷ []) note_plan
plan_transfer-IsPlan_example = plan_transfer-IsPlan (note_file ∷ []) note_plan
