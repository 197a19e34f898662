-- ===== src/Web/App.antt =====
-- rust/apps/web/src/app_transition.rs: the events of the application and what they change in the model.
use p2p_transmission.Prelude.{Bool, false, Option, some, List, [], ◌∷◌}
use p2p_transmission.Prelude.Text.{Text}
use p2p_transmission.Protocol.Http.{SessionResponse}
use p2p_transmission.Web.State.{RealtimePhase}
use p2p_transmission.Web.Model.{Screen, AppModel}

pub data AppEvent : Type 0 where
  session_ready : SessionResponse → AppEvent
  navigate : Screen → AppEvent
  set_realtime : RealtimePhase → AppEvent
  set_busy : Bool → AppEvent
  set_notice set_error : Option Text → AppEvent
  set_about_open : Bool → AppEvent
  set_decision_request : Option Text → AppEvent
  upgrade_required : AppEvent

pub data AppEffect : Type 0 where
  show_upgrade_prompt : AppEffect

-- The new model and the effects that run after it.
abbrev pub reduce_app_event : AppModel → AppEvent → AppModel × List AppEffect
reduce_app_event model (session_ready session) = (record model { session = some session }, [])
reduce_app_event model (navigate screen) = (record model { screen = screen }, [])
reduce_app_event model (set_realtime phase) = (record model { realtime = phase }, [])
reduce_app_event model (set_busy busy) = (record model { busy = busy }, [])
reduce_app_event model (set_notice notice) = (record model { notice = notice }, [])
reduce_app_event model (set_error error) = (record model { error = error }, [])
reduce_app_event model (set_about_open is_open) = (record model { about_open = is_open }, [])
reduce_app_event model (set_decision_request request_id) =
    (record model { decision_request_id = request_id }, [])
reduce_app_event model upgrade_required = (record model { busy = false }, show_upgrade_prompt ∷ [])
