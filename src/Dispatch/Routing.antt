-- ===== src/Dispatch/Routing.antt =====
-- ZMSyncStrategy.m: where update events go, by the policy of the state machine.
use zmessaging_cocoa.Base.{
  ℕ, suc, Bool, true, false, not, ◌&&◌, ◌||◌, none, some, List, [], ◌∷◌, ◌++◌, if◌then◌else◌, ◌≡◌,
  refl, arith, ◌+◌, ◌==◌, ==_iff, ap, ◌∙◌, sym,
}
use zmessaging_cocoa.States.World.{UpdateEventsPolicy}
use zmessaging_cocoa.Syncs.EventsBuffer.{Buffer, add_update_event, process_all_events}
use zmessaging_cocoa.Dispatch.Strategy.{
  Batch, ObjectStrategy, SyncStrategy, Kinds, select, has_any, decrypt_update_events, pass_events,
  consume_update_events, process_all_events_in_buffer, add_all, apply_policy, process_update_events,
}

append_assoc : (xs ys zs : List ℕ) → (xs ++ ys) ++ zs ≡ xs ++ (ys ++ zs)
append_assoc [] ys zs = refl
append_assoc (x ∷ xs) ys zs = ap (λ t. x ∷ t) (append_assoc xs ys zs)

append_nil : (xs : List ℕ) → xs ++ [] ≡ xs
append_nil [] = refl
append_nil (x ∷ xs) = ap (λ t. x ∷ t) (append_nil xs)

add_all_lem : (es : List ℕ) (b : Buffer) → add_all es b ≡ record b { buffered = b.buffered ++ es }
unfolding add_all add_update_event
add_all_lem [] b = ap (λ l. record b { buffered = l }) (sym (append_nil b.buffered))
add_all_lem (e ∷ es) b =
    add_all_lem es (add_update_event e b)
    ∙ ap (λ l. record b { buffered = l }) (append_assoc b.buffered (e ∷ []) es)

module _ {T R : Type 0} (fetch : Batch → T → R × T)
    (transcoders strategies : List (ObjectStrategy T R)) where
  -- Events that arrive while the policy is to buffer, and the buffer's processing after them: the
  -- strategies get the flow events at once, and later, in one piece, what was buffered before
  -- followed by the other events; the buffer is empty then.
  pub buffered_events_follow :
      (kinds : Kinds) (events : List ℕ) (s : SyncStrategy T)
      → let flow = select kinds.is_flow_event events in
        let at_once =
          if has_any flow then consume_update_events fetch transcoders strategies flow s else s in
        let later = process_all_events_in_buffer fetch transcoders strategies (
          process_update_events fetch transcoders strategies kinds
            (λ t. UpdateEventsPolicy.buffer)
            false
            events
            s) in
        (later.outside
          ≡ (consume_update_events fetch transcoders strategies
              (s.buffer.buffered ++ select (λ e. not (kinds.is_flow_event e)) events)
              at_once).outside)
        × (later.buffer.buffered ≡ [])
  unfolding process_all_events_in_buffer process_update_events apply_policy consume_update_events
      process_all_events
  buffered_events_follow kinds events s =
      let flow = select kinds.is_flow_event events in
      let others = select (λ e. not (kinds.is_flow_event e)) events in
      ground (arith, add_all_lem others s.buffer)

pub count : ℕ → List ℕ → ℕ
count a [] = 0
count a (x ∷ xs) = let rest = count a xs in if x == a then suc rest else rest

-- A transcoder that writes down what it is given.
abbrev pub recorder : ObjectStrategy (List ℕ) Bool
recorder = record {
  decrypted_update_events = none;
  request_generators = [];
  is_slow_sync_done = λ t. true;
  set_needs_slow_sync = λ t. t;
  process_events = some (λ events live r t. t ++ events);
  message_nonces_to_prefetch = none;
  conversations_to_prefetch = none;
}

abbrev pub fetch_nothing : Batch → List ℕ → Bool × List ℕ
fetch_nothing b t = (true, t)

-- Whether an event that the buffer is not ignored for is passed on by the policy.
abbrev pub passes : UpdateEventsPolicy → Bool → Bool → Bool
passes UpdateEventsPolicy.process flow call = not flow
passes UpdateEventsPolicy.ignore flow call = call
passes UpdateEventsPolicy.buffer flow call = false

abbrev pub keeps : UpdateEventsPolicy → Bool → Bool
keeps UpdateEventsPolicy.buffer flow = not flow
keeps _ flow = false

count-append : (a : ℕ) (xs ys : List ℕ) → count a (xs ++ ys) ≡ count a xs + count a ys
unfolding count
count-append a [] ys = omega arith
count-append a (x ∷ xs) ys = ground (arith, count-append a xs ys)

count-select :
    (p : ℕ → Bool) (a : ℕ) (xs : List ℕ) → count a (select p xs) ≡ (if p a then count a xs else 0)
unfolding count select
count-select p a [] = ground arith
count-select p a (x ∷ xs) = grind (arith, count-select p a xs, ==_iff x a)

count-has_any : (a : ℕ) (xs : List ℕ) → has_any xs ≡ false → count a xs ≡ 0
unfolding count has_any
count-has_any a [] h = refl
count-has_any a (x ∷ xs) h = ground arith

-- A strategy whose one transcoder writes down the events it gets: of each event, by the times it
-- arrives, all are passed on if the buffer is ignored or it is a flow event, and besides as the
-- policy says: events other than flow events are passed on, call state events alone are passed on,
-- or none is and all but flow events are kept in the buffer. An event is neither lost nor doubled
-- otherwise, and the ones before stay.
pub routed_events :
    (kinds : Kinds) (policy : UpdateEventsPolicy) (ignore_buffer : Bool) (e : ℕ) (events : List ℕ)
    (s : SyncStrategy (List ℕ))
    → let after =
        process_update_events fetch_nothing
          (recorder ∷ [])
          []
          kinds
          (λ t. policy)
          ignore_buffer
          events
          s in
      let flow = kinds.is_flow_event e in
      let call = kinds.is_call_state e in
      (count e after.outside
        ≡ count e s.outside
          + (if ignore_buffer || flow then count e events else 0)
          + (if not ignore_buffer && passes policy flow call then count e events else 0))
      × (count e after.buffer.buffered
          ≡ count e s.buffer.buffered
            + (if not ignore_buffer && keeps policy flow then count e events else 0))
unfolding process_update_events consume_update_events decrypt_update_events pass_events apply_policy
routed_events kinds policy ignore_buffer e events s =
    let flow = select kinds.is_flow_event events in
    let others = select (λ x. not (kinds.is_flow_event x)) events in
    let calls = select kinds.is_call_state events in
    ground (
      arith,
      add_all_lem others s.buffer,
      count-append e s.outside events,
      count-append e s.outside flow,
      count-append e s.outside others,
      count-append e s.outside calls,
      count-append e (s.outside ++ flow) others,
      count-append e (s.outside ++ flow) calls,
      count-append e s.buffer.buffered others,
      count-select kinds.is_flow_event e events,
      count-select kinds.is_call_state e events,
      count-select (λ x. not (kinds.is_flow_event x)) e events,
      count-has_any e flow,
      count-has_any e others,
      count-has_any e calls,
    )
