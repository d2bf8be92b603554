-- ===== src/Calling/Laws.antt =====
-- ZMGSMCallHandler.m: a phone call interrupts a call of the app.
use zmessaging_cocoa.Base.{
  ℕ, true, false, none, some, List, [], ◌∷◌, ◌++◌, ◌≡◌, if◌then◌else◌, ltb, arith, ==_refl,
}
use zmessaging_cocoa.Calling.{
  CallState, Command, Device, Handler, stored_conversation, call_event, is_interrupted,
  did_finish_sync, init, is_start,
}

-- The call of the app that goes on when the phone call is over: joined again, left, or nothing.
abbrev pub resumed : Device → ℕ → List Command
resumed d c =
    if ltb 0 (d.participants c)
    then Command.join_channel c ∷ []
    else if d.call_device_is_active c
    then Command.leave_channel c ∷ []
    else []

module _ (before after : Device) where
  -- Once the first sync is done, a phone call that begins while an existing conversation has the
  -- active call, and none is stored, interrupts it: that is logged, the conversation is stored, then
  -- joined again as suspended, and saved; and a second phone call changes nothing. When the phone
  -- call ends, that is logged, and what is stored is reset before the voice channel is joined if it
  -- has participants, and else left if the device is still active in it.
  pub interrupted_and_resumed :
      (c : ℕ) (state : CallState) (log : List Command)
      → is_start before state ≡ true
      → before.exists c ≡ true
      → let h : Handler = record {
        stored = none;
        active = some c;
        can_update_call_state = true;
        log = log;
      } in
        let out = call_event before state h in
        (is_interrupted before c out ≡ true)
        × (call_event before state out ≡ out)
        × (call_event after CallState.disconnected out ≡ record h {
          log =
              Command.enqueue_delayed_save ∷ resumed after c
              ++ Command.store_conversation none
                ∷ Command.log_interruption c false
                ∷ Command.save_or_rollback
                ∷ Command.join_channel c
                ∷ Command.store_conversation (some c)
                ∷ Command.log_interruption c true
                ∷ log;
        })
  unfolding call_event is_interrupted stored_conversation
  interrupted_and_resumed c CallState.dialing log s e = ground (arith, e, ==_refl c)
  interrupted_and_resumed c CallState.incoming log s e = ground (arith, e, ==_refl c)
  interrupted_and_resumed c CallState.connected log s e = ground arith
  interrupted_and_resumed c CallState.disconnected log s e = ground arith

-- Before the first sync is done a phone call does nothing. When it is done and there is no phone
-- call, a call that was suspended when the app ended is over or goes on, and nothing is stored.
pub resumed_after_launch :
    (d : Device) (c : ℕ) (state : CallState)
    → d.exists c ≡ true
    → d.current_calls ≡ 0
    → let h = init d (some c) in
      (call_event d state h ≡ h)
      × (did_finish_sync d (call_event d state h) ≡ record {
        stored = none;
        active = some c;
        can_update_call_state = true;
        log =
            Command.enqueue_delayed_save ∷ resumed d c
            ++ Command.store_conversation none ∷ Command.log_interruption c false ∷ [];
      })
unfolding init call_event did_finish_sync
resumed_after_launch d c state e z = ground (arith, e, z)
