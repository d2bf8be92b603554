-- ===== src/Calling.antt =====
-- ZMGSMCallHandler.m in Source/Calling/: a call of the app that a phone call interrupts is suspended, and
-- joined again or left when the phone call is over. Conversations are the numbers of their
-- identifiers, and blocks on the contexts' queues run at once.
pub mod Laws
use zmessaging_cocoa.Base.{
  ℕ, Bool, true, false, not, ◌&&◌, ◌||◌, Option, none, some, is_some, List, [], ◌∷◌, if◌then◌else◌,
  ◌==◌, ltb, same?,
}

-- CTCallState, by the names that the library gives it.
pub data CallState : Type 0 where
  dialing incoming connected disconnected : CallState

-- What the handler asks of the conversations, the logger and the context, newest first in its log.
pub data Command : Type 0 where
  log_interruption : ℕ → Bool → Command
  join_channel leave_channel : ℕ → Command
  save_or_rollback enqueue_delayed_save : Command
  store_conversation : Option ℕ → Command  -- the metadata are set

-- The data model and telephony libraries at one moment: whether a conversation that is stored still
-- exists, the participants of its voice channel, and the phone's calls.
pub record Device : Type 0 where
  pub exists : ℕ → Bool
  pub participants : ℕ → ℕ
  pub call_device_is_active : ℕ → Bool
  pub current_calls : ℕ

pub record Handler : Type 0 where
  pub stored : Option ℕ  -- the metadata ZMInterruptedCallConversationObjectIDKey
  pub active : Option ℕ  -- activeCallUIConversationObjectID
  pub can_update_call_state : Bool
  pub log : List Command

unfoldable pub has_stored : Handler → Bool
has_stored h = is_some h.stored

module _ (d : Device) where
  -- The getter `storedConversation`: nil also if the object is gone.
  unfoldable pub stored_conversation : Handler → Option ℕ
  stored_conversation h = elim h.stored [
    | none ↦ none
    | some c ↦ if d.exists c then some c else none
  ]

  -- The initialiser, with the metadata of the store.
  unfoldable pub init : Option ℕ → Handler
  unfolding stored_conversation
  init stored =
      let h : Handler = record {
        stored = stored;
        active = none;
        can_update_call_state = false;
        log = [];
      } in
      record h { active = stored_conversation h }

  abbrev pub send : Command → Handler → Handler
  send c h = record h { log = c ∷ h.log }

  -- `setStoredConversation:`, of a conversation or nil.
  abbrev pub set_stored : Option ℕ → Handler → Handler
  set_stored c h = send (store_conversation c) (record h { stored = c })

  unfoldable pub log_is_interrupted : Bool → Handler → Handler
  log_is_interrupted b h = elim h.active [ none ↦ h | some c ↦ send (log_interruption c b) h ]

  abbrev join_active : Handler → Handler
  join_active h = elim h.active [ none ↦ h | some c ↦ send (join_channel c) h ]

  unfoldable pub interrupt_call : Handler → Handler
  unfolding log_is_interrupted
  interrupt_call h =
      let logged = log_is_interrupted true h in
      send save_or_rollback (join_active (set_stored logged.active logged))

  abbrev resume : Handler → Handler
  resume h = elim h.active [
    | none ↦ h
    | some c ↦
        if ltb 0 (d.participants c)
        then send (join_channel c) h
        else if d.call_device_is_active c
        then send (leave_channel c) h
        else h
  ]

  -- `rejoinVoiceChannelAfterGSMInterruption`
  unfoldable pub rejoin : Handler → Handler
  unfolding log_is_interrupted
  rejoin h = send enqueue_delayed_save (resume (set_stored none (log_is_interrupted false h)))

  unfoldable pub did_finish_sync : Handler → Handler
  unfolding rejoin has_stored
  did_finish_sync h =
      let ready = record h { can_update_call_state = true } in
      if d.current_calls == 0 && has_stored ready then rejoin ready else ready

  abbrev pub is_start : CallState → Bool
  is_start CallState.dialing = true
  is_start CallState.incoming = true
  is_start CallState.connected = false
  is_start CallState.disconnected = false

  abbrev is_end : CallState → Bool
  is_end CallState.disconnected = true
  is_end CallState.dialing = false
  is_end CallState.incoming = false
  is_end CallState.connected = false

  -- Nothing is stored, or not the active conversation.
  abbrev is_new : Handler → Bool
  is_new h = not (has_stored h) || not (same? (stored_conversation h) h.active)

  -- `callEventHandler`
  unfoldable pub call_event : CallState → Handler → Handler
  unfolding interrupt_call rejoin has_stored stored_conversation
  call_event state h =
      if not h.can_update_call_state
      then h
      else if is_start state && is_some h.active && is_new h
      then interrupt_call h
      else if is_end state && has_stored h
      then rejoin h
      else h

  -- `setActiveCallSyncConversation:`, of an identifier that is permanent or not.
  unfoldable pub set_active_call : Option (ℕ × Bool) → Handler → Handler
  set_active_call none h = set_stored none (record h { active = none })
  set_active_call (some (c, temporary)) h =
      if temporary
      then set_stored none (record h { active = none })
      else record h { active = some c }

  unfoldable pub is_interrupted : ℕ → Handler → Bool
  unfolding stored_conversation
  is_interrupted c h = elim (stored_conversation h) [ none ↦ false | some s ↦ c == s ]

-- ZMGSMCallHandler, as its header declares it, and its category for tests.
pub record CallHandler : Type 0 where
  pub start : Device → Option ℕ → Handler
  pub set_active_call_sync_conversation : Device → Option (ℕ × Bool) → Handler → Handler
  pub is_interrupted_call_conversation : Device → ℕ → Handler → Bool

pub record CallHandlerTesting : Type 0 where
  pub has_stored_interrupted_call_conversation : Handler → Bool
  pub active_call_ui_conversation : Handler → Option ℕ
  pub call_event_handler : Device → CallState → Handler → Handler

abbrev pub call_handler : CallHandler
call_handler = record {
  start = init;
  set_active_call_sync_conversation = set_active_call;
  is_interrupted_call_conversation = is_interrupted;
}

abbrev pub call_handler_testing : CallHandlerTesting
call_handler_testing = record {
  has_stored_interrupted_call_conversation = has_stored;
  active_call_ui_conversation = λ h. h.active;
  call_event_handler = call_event;
}
