-- ===== src/Utility/Tracing/Laws.antt =====
-- What a tracer sees of the guarded functions.
use zmessaging_cocoa.Base.{ℕ, Bool, Option, List, [], ◌∷◌, ◌≡◌, arith, ◌==◌, if◌then◌else◌}
use Prim.Native.String.{String}
use zmessaging_cocoa.Utility.Tracing.{Probe, Value, word, Trace, fire, uuid_text, reported}
use zmessaging_cocoa.Utility.Tracing.Calling.{call_event_participant, call_event_self}

-- The probe of a call event with the code `d`, with its guard taken away; no other code has one.
abbrev pub participant_probe : ℕ → List Value → Trace
participant_probe d vs =
    if d == 0
    then fire Probe.calling_push_event_participant vs
    else if d == 1
    then fire Probe.calling_downstream_event_participant vs
    else if d == 2
    then fire Probe.calling_upstream_event_participant vs
    else []

abbrev pub self_probe : ℕ → List Value → Trace
self_probe d vs =
    if d == 0
    then fire Probe.calling_push_event_self vs
    else if d == 1
    then fire Probe.calling_downstream_event_self vs
    else if d == 2
    then fire Probe.calling_upstream_event_self vs
    else []

module _ (enabled : Probe → Bool) (transport_string : ℕ → String) where
  -- The guards of the call events are only a saving: whichever probes are enabled, a tracer sees of
  -- both functions the one probe that belongs to the code `d`, as if it were fired without a guard,
  -- and nothing for another code.
  pub call_events_reported :
      (conversation user : Option ℕ) (d e f : ℕ)
      → (reported enabled (call_event_participant enabled transport_string conversation user d e f)
          ≡ reported enabled (
              participant_probe d (
                uuid_text transport_string conversation
                ∷ uuid_text transport_string user
                ∷ word e
                ∷ word f
                ∷ [])))
        × (reported enabled (call_event_self enabled transport_string conversation d e f)
            ≡ reported enabled
                (self_probe d (uuid_text transport_string conversation ∷ word e ∷ word f ∷ [])))
  unfolding reported call_event_participant call_event_self
  call_events_reported conversation user d e f = ground arith
