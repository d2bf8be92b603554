-- ===== src/Utility/Tracing/Sync.antt =====
-- ZMTracing.h: the operation loop, the sync strategy, the user interface and Core Data.
use zmessaging_cocoa.Base.{ℕ, Bool, Option, none, some, [], ◌∷◌, if◌then◌else◌}
use Prim.Native.String.{String}
use zmessaging_cocoa.Utility.Tracing.{Probe, word, text, Trace, fire, gate, uuid_text}

pub operation_loop_enqueue_request : ℕ → ℕ → ℕ → Trace
operation_loop_enqueue_request d identifier e =
    fire Probe.sync_operation_loop_enqueue (word d ∷ word identifier ∷ word e ∷ [])

pub operation_loop_enqueue_request_id : ℕ → ℕ → ℕ → Trace
operation_loop_enqueue_request_id d identifier e =
    fire Probe.sync_operation_loop_enqueue (word d ∷ word identifier ∷ word e ∷ [])

pub operation_loop_push_channel_data : ℕ → ℕ → Trace
operation_loop_push_channel_data d count =
    fire Probe.sync_operation_loop_push_channel_data (word d ∷ word count ∷ [])

abbrev or_nil : Option String → String
or_nil none = "<nil>"
or_nil (some s) = s

pub sync_strategy_go_to_state : Option String → Trace
sync_strategy_go_to_state state =
    fire Probe.sync_strategy_go_to_state (text (some (or_nil state)) ∷ [])

pub sync_strategy_did_leave_state : Option String → Trace
sync_strategy_did_leave_state state =
    fire Probe.sync_strategy_leave_state (text (some (or_nil state)) ∷ [])

pub sync_strategy_go_to_state_enabled : (Probe → Bool) → Bool
sync_strategy_go_to_state_enabled enabled = enabled Probe.sync_strategy_go_to_state

pub sync_strategy_did_leave_state_enabled : (Probe → Bool) → Bool
sync_strategy_did_leave_state_enabled enabled = enabled Probe.sync_strategy_leave_state

pub sync_strategy_update_event : ℕ → ℕ → Trace
sync_strategy_update_event d type = fire Probe.sync_strategy_update_event (word d ∷ word type ∷ [])

pub sync_strategy_update_event_string_enabled : (Probe → Bool) → Bool
sync_strategy_update_event_string_enabled enabled = enabled Probe.sync_strategy_update_event_string

pub sync_strategy_update_event_string : ℕ → Option String → Trace
sync_strategy_update_event_string d type =
    fire Probe.sync_strategy_update_event_string (word d ∷ text type ∷ [])

pub object_context_enqueue_save : ℕ → ℕ → ℕ → Trace
object_context_enqueue_save d e f =
    fire Probe.core_data_enqueue_save (word d ∷ word e ∷ word f ∷ [])

-- What the functions ask of a managed object context.
pub record Context : Type 0 where
  pub is_sync : Bool
  pub is_search : Bool

pub managed_object_context_type : Context → ℕ
managed_object_context_type moc = if moc.is_sync then 1 else if moc.is_search then 2 else 0

pub object_context_perform_end : Trace
object_context_perform_end = fire Probe.core_data_perform_group_exit []

module _ (enabled : Probe → Bool) where
  pub object_context_perform_start : Context → Trace
  unfolding managed_object_context_type
  object_context_perform_start moc =
      gate enabled Probe.core_data_perform_group_enter (word (managed_object_context_type moc) ∷ [])

  -- The object is given by the text of its identifier's address and by its context.
  pub object_context_manual_refresh : Option String → Context → Trace
  unfolding managed_object_context_type
  object_context_manual_refresh uri moc =
      gate enabled Probe.core_data_manual_refresh
        (text uri ∷ word (managed_object_context_type moc) ∷ [])

  pub user_interface_notification_enabled : Bool
  user_interface_notification_enabled = enabled Probe.ui_notification

  pub user_interface_notification_uuid :
      (ℕ → String) → ℕ → ℕ → Option ℕ → Option ℕ → ℕ → ℕ → ℕ → ℕ → Trace
  user_interface_notification_uuid transport_string d obj id1 id2 e f g h =
      gate enabled Probe.ui_notification (
        word d
        ∷ word obj
        ∷ uuid_text transport_string id1
        ∷ uuid_text transport_string id2
        ∷ word e
        ∷ word f
        ∷ word g
        ∷ word h
        ∷ [])

  pub user_interface_notification_string :
      (ℕ → String) → ℕ → ℕ → Option ℕ → Option String → ℕ → ℕ → ℕ → ℕ → Trace
  user_interface_notification_string transport_string d obj id1 string e f g h =
      gate enabled Probe.ui_notification (
        word d
        ∷ word obj
        ∷ uuid_text transport_string id1
        ∷ text string
        ∷ word e
        ∷ word f
        ∷ word g
        ∷ word h
        ∷ [])
