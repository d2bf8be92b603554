-- ===== src/Utility/Tracing/Calling.antt =====
-- ZMTracing.h: calls, and the call state transcoder.
use zmessaging_cocoa.Base.{ℕ, Bool, ◌&&◌, Option, List, [], ◌∷◌, ◌++◌, ◌==◌, if◌then◌else◌}
use Prim.Native.String.{String}
use zmessaging_cocoa.Utility.Tracing.{Probe, Value, word, text, Trace, fire, gate, uuid_text}

pub call_session : Option String → Trace
call_session session = fire Probe.calling_session (text session ∷ [])

module _ (enabled : Probe → Bool) where
  pub call_session_enabled : Bool
  call_session_enabled = enabled Probe.calling_session

  pub flow_manager_category : Option String → ℕ → Trace
  flow_manager_category identifier d =
      gate enabled Probe.calling_flow_manager_category (text identifier ∷ word d ∷ [])

  pub call_flow_acquire : Option String → Trace
  call_flow_acquire conversation = gate enabled Probe.calling_flow_acquire (text conversation ∷ [])

  pub call_flow_release : Option String → Trace
  call_flow_release conversation = gate enabled Probe.calling_flow_release (text conversation ∷ [])

  -- `if (..._ENABLED() && d == n) { ...(...); }`
  abbrev pub gate_at : ℕ → ℕ → Probe → List Value → Trace
  gate_at n d p vs = if enabled p && d == n then fire p vs else []

module _ (enabled : Probe → Bool) (transport_string : ℕ → String) where
  pub transcoder_call_state_request_update_is_joined : ℕ → Option ℕ → ℕ → Trace
  transcoder_call_state_request_update_is_joined d identifier e =
      gate enabled Probe.transcoder_call_state_req_update_is_joined
        (word d ∷ uuid_text transport_string identifier ∷ word e ∷ [])

  pub call_device_is_active : Option ℕ → ℕ → Trace
  call_device_is_active identifier d =
      gate enabled Probe.calling_device_is_active
        (uuid_text transport_string identifier ∷ word d ∷ [])

  unfoldable pub call_event_participant : Option ℕ → Option ℕ → ℕ → ℕ → ℕ → Trace
  call_event_participant conversation user d e f =
      let values =
        uuid_text transport_string conversation
        ∷ uuid_text transport_string user
        ∷ word e
        ∷ word f
        ∷ [] in
      gate_at enabled 0 d Probe.calling_push_event_participant values
      ++ (gate_at enabled 1 d Probe.calling_downstream_event_participant values
          ++ gate_at enabled 2 d Probe.calling_upstream_event_participant values)

  unfoldable pub call_event_self : Option ℕ → ℕ → ℕ → ℕ → Trace
  call_event_self conversation d backend_state current_state =
      let values =
        uuid_text transport_string conversation ∷ word backend_state ∷ word current_state ∷ [] in
      gate_at enabled 0 d Probe.calling_push_event_self values
      ++ (gate_at enabled 1 d Probe.calling_downstream_event_self values
          ++ gate_at enabled 2 d Probe.calling_upstream_event_self values)

  pub call_voice_gain : Option ℕ → Option ℕ → ℕ → Trace
  call_voice_gain conversation user gain =
      gate enabled Probe.calling_voice_gain
        (uuid_text transport_string conversation ∷ uuid_text transport_string user ∷ word gain ∷ [])
