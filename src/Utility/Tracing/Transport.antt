-- ===== src/Utility/Tracing/Transport.antt =====
-- ZMTracing.h: the transport session, the push channel and the sockets.
use zmessaging_cocoa.Base.{ℕ, Bool, Option, none, some, [], ◌∷◌}
use Prim.Native.String.{String}
use zmessaging_cocoa.Utility.Tracing.{Probe, word, text, Trace, fire, gate}

pub transport_session_access_token_request : ℕ → ℕ → ℕ → Trace
transport_session_access_token_request d status_code task =
    fire Probe.transport_access_token_request (word d ∷ word status_code ∷ word task ∷ [])

pub transport_session_push_channel : ℕ → ℕ → ℕ → Trace
transport_session_push_channel d channel e =
    fire Probe.transport_push_channel_creation (word d ∷ word channel ∷ word e ∷ [])

pub transport_session_push_channel_backoff : ℕ → ℕ → Trace
transport_session_push_channel_backoff c milliseconds =
    fire Probe.transport_push_channel_creation_backoff (word c ∷ word milliseconds ∷ [])

pub transport_session_push_channel_event : ℕ → ℕ → ℕ → Trace
transport_session_push_channel_event d channel e =
    fire Probe.transport_push_channel_creation_event (word d ∷ word channel ∷ word e ∷ [])

-- What the function reads of an NSError.
pub record Error : Type 0 where
  pub domain : Option String
  pub code : ℕ

pub transport_session_task_completed_with_error : (Probe → Bool) → ℕ → ℕ → Option Error → Trace
transport_session_task_completed_with_error enabled d task none = []
transport_session_task_completed_with_error enabled d task (some e) =
    gate enabled Probe.transport_session_task_error
      (word d ∷ word task ∷ text e.domain ∷ word e.code ∷ [])

pub transport_session_reachability : ℕ → ℕ → Trace
transport_session_reachability d e =
    fire Probe.transport_session_reachability (word d ∷ word e ∷ [])

pub transport_request_scheduler : ℕ → ℕ → ℕ → Trace
transport_request_scheduler d e f =
    fire Probe.transport_request_scheduler (word d ∷ word e ∷ word f ∷ [])

pub transport_request_scheduler_object : ℕ → ℕ → Trace
transport_request_scheduler_object d obj =
    fire Probe.transport_request_scheduler (word d ∷ word obj ∷ word 0 ∷ [])

pub push_channel_ping_start_stop : ℕ → ℕ → ℕ → Trace
push_channel_ping_start_stop channel d milliseconds =
    fire Probe.transport_push_channel_ping_start_stop
      (word channel ∷ word d ∷ word milliseconds ∷ [])

pub push_channel_ping_fired : ℕ → Trace
push_channel_ping_fired channel = fire Probe.transport_push_channel_ping_fired (word channel ∷ [])

pub push_channel_event : ℕ → ℕ → ℕ → Trace
push_channel_event channel ws d =
    fire Probe.transport_push_channel_event (word channel ∷ word ws ∷ word d ∷ [])

pub web_socket_event : ℕ → ℕ → ℕ → ℕ → Trace
web_socket_event ws ns d e =
    fire Probe.transport_web_socket_event (word ws ∷ word ns ∷ word d ∷ word e ∷ [])

pub network_socket_event : ℕ → ℕ → ℕ → ℕ → Trace
network_socket_event ns sock d e =
    fire Probe.transport_network_socket_event (word ns ∷ word sock ∷ word d ∷ word e ∷ [])
