-- ===== src/Web/Handling.antt =====
-- rust/apps/web/src/rtc_transfer_events.rs: an event of a transfer, from the plan to the model and the
-- notification that is shown.
use p2p_transmission.Prelude.{ℕ, if◌then◌else◌, Option, none, some, List, [], ◌∷◌}
use p2p_transmission.Prelude.Text.{Text}
use p2p_transmission.Web.Model.{AppModel}
use p2p_transmission.Web.Events.{RtcEvent, NotificationEffect, PlannedTransferEvent}
use p2p_transmission.Web.Planning.{plan_transfer_event, apply_mutation}
use p2p_transmission.Web.Texts.{is_text_event, apply_text_event}

abbrev pub handle_plan :
    AppModel → Option PlannedTransferEvent → Option (AppModel × Option NotificationEffect)
handle_plan model none = none
handle_plan model (some plan) = some (apply_mutation model plan.mutation, plan.notification)

-- The model and the notification; none stands for a panic.
unfoldable pub handle_transfer_event :
    (ℕ → Text) → AppModel → Text → RtcEvent → Option (AppModel × Option NotificationEffect)
handle_transfer_event to_string model peer_id event =
    if is_text_event event
    then some (apply_text_event model peer_id event)
    else handle_plan model (plan_transfer_event to_string model peer_id event)

abbrev pub and_then : {A B : Type 0} → Option A → (A → Option B) → Option B
and_then none f = none
and_then (some a) f = f a

-- The events of one peer, one after the other.
unfoldable pub handle_all : (ℕ → Text) → AppModel → Text → List RtcEvent → Option AppModel
handle_all to_string model peer_id [] = some model
handle_all to_string model peer_id (event ∷ rest) =
    and_then (handle_transfer_event to_string model peer_id event)
      (λ handled. handle_all to_string handled.0 peer_id rest)
