-- ===== src/Utility/Tracing/Codes/Loops.antt =====
-- ZMTracing.h: the documented numbers of the operation loop, the push channel and the user interface.
use zmessaging_cocoa.Base.{ℕ, List, [], ◌∷◌, some, ◌≡◌, refl, decode, Coded}

pub data OperationLoopStage : Type 0 where
  enqueue stop_enqueueing enqueueing on_sync_context created_request : OperationLoopStage
  tried_to_enqueue completion_handler : OperationLoopStage

abbrev pub operation_loop_stage_code : OperationLoopStage → ℕ
operation_loop_stage_code OperationLoopStage.enqueue = 0
operation_loop_stage_code OperationLoopStage.stop_enqueueing = 1
operation_loop_stage_code OperationLoopStage.enqueueing = 2
operation_loop_stage_code OperationLoopStage.on_sync_context = 3
operation_loop_stage_code OperationLoopStage.created_request = 4
operation_loop_stage_code OperationLoopStage.tried_to_enqueue = 5
operation_loop_stage_code OperationLoopStage.completion_handler = 6

abbrev pub operation_loop_stage_values : List OperationLoopStage
operation_loop_stage_values =
    OperationLoopStage.enqueue ∷ OperationLoopStage.stop_enqueueing ∷ OperationLoopStage.enqueueing
    ∷ OperationLoopStage.on_sync_context ∷ OperationLoopStage.created_request
    ∷ OperationLoopStage.tried_to_enqueue ∷ OperationLoopStage.completion_handler ∷ []

pub operation_loop_stage_found :
    (a : OperationLoopStage)
    → decode operation_loop_stage_code operation_loop_stage_values (operation_loop_stage_code a)
      ≡ some a
unfolding decode
operation_loop_stage_found OperationLoopStage.enqueue = refl
operation_loop_stage_found _ = refl

instance pub operation_loop_stage_coded : Coded OperationLoopStage
operation_loop_stage_coded = record {
  code = operation_loop_stage_code;
  values = operation_loop_stage_values;
  found = operation_loop_stage_found;
}

pub data PushChannelDataStage : Type 0 where
  start stop : PushChannelDataStage

abbrev pub push_channel_data_stage_code : PushChannelDataStage → ℕ
push_channel_data_stage_code PushChannelDataStage.start = 0
push_channel_data_stage_code PushChannelDataStage.stop = 1

abbrev pub push_channel_data_stage_values : List PushChannelDataStage
push_channel_data_stage_values = PushChannelDataStage.start ∷ PushChannelDataStage.stop ∷ []

pub push_channel_data_stage_found :
    (a : PushChannelDataStage)
    → decode push_channel_data_stage_code push_channel_data_stage_values
        (push_channel_data_stage_code a)
      ≡ some a
unfolding decode
push_channel_data_stage_found PushChannelDataStage.start = refl
push_channel_data_stage_found _ = refl

instance pub push_channel_data_stage_coded : Coded PushChannelDataStage
push_channel_data_stage_coded = record {
  code = push_channel_data_stage_code;
  values = push_channel_data_stage_values;
  found = push_channel_data_stage_found;
}

pub data UserInterfaceNotification : Type 0 where
  voice_channel_state_changed : UserInterfaceNotification
  voice_channel_participant_state_changed message_change : UserInterfaceNotification
  conversation_change conversation_list_change user_change : UserInterfaceNotification
  conversation_message_window network_availability_change : UserInterfaceNotification

abbrev pub user_interface_notification_code : UserInterfaceNotification → ℕ
user_interface_notification_code UserInterfaceNotification.voice_channel_state_changed = 0
user_interface_notification_code UserInterfaceNotification.voice_channel_participant_state_changed =
    1
user_interface_notification_code UserInterfaceNotification.message_change = 2
user_interface_notification_code UserInterfaceNotification.conversation_change = 3
user_interface_notification_code UserInterfaceNotification.conversation_list_change = 4
user_interface_notification_code UserInterfaceNotification.user_change = 5
user_interface_notification_code UserInterfaceNotification.conversation_message_window = 6
user_interface_notification_code UserInterfaceNotification.network_availability_change = 7

abbrev pub user_interface_notification_values : List UserInterfaceNotification
user_interface_notification_values =
    UserInterfaceNotification.voice_channel_state_changed
    ∷ UserInterfaceNotification.voice_channel_participant_state_changed
    ∷ UserInterfaceNotification.message_change ∷ UserInterfaceNotification.conversation_change
    ∷ UserInterfaceNotification.conversation_list_change ∷ UserInterfaceNotification.user_change
    ∷ UserInterfaceNotification.conversation_message_window
    ∷ UserInterfaceNotification.network_availability_change ∷ []

pub user_interface_notification_found :
    (a : UserInterfaceNotification)
    → decode user_interface_notification_code user_interface_notification_values
        (user_interface_notification_code a)
      ≡ some a
unfolding decode
user_interface_notification_found UserInterfaceNotification.voice_channel_state_changed = refl
user_interface_notification_found _ = refl

instance pub user_interface_notification_coded : Coded UserInterfaceNotification
user_interface_notification_coded = record {
  code = user_interface_notification_code;
  values = user_interface_notification_values;
  found = user_interface_notification_found;
}

pub data PushChannelStage : Type 0 where
  creating_new needs_new_access_token closing_and_removing_consumer : PushChannelStage
  open_if_closed creating_new_or_open invalid_consumer_or_queue : PushChannelStage
  is_already_creating creating_instance creating_now creating_with_backoff : PushChannelStage
  backoff_expired : PushChannelStage

abbrev pub push_channel_stage_code : PushChannelStage → ℕ
push_channel_stage_code PushChannelStage.creating_new = 0
push_channel_stage_code PushChannelStage.needs_new_access_token = 1
push_channel_stage_code PushChannelStage.closing_and_removing_consumer = 2
push_channel_stage_code PushChannelStage.open_if_closed = 4
push_channel_stage_code PushChannelStage.creating_new_or_open = 10
push_channel_stage_code PushChannelStage.invalid_consumer_or_queue = 11
push_channel_stage_code PushChannelStage.is_already_creating = 12
push_channel_stage_code PushChannelStage.creating_instance = 13
push_channel_stage_code PushChannelStage.creating_now = 14
push_channel_stage_code PushChannelStage.creating_with_backoff = 15
push_channel_stage_code PushChannelStage.backoff_expired = 16

abbrev pub push_channel_stage_values : List PushChannelStage
push_channel_stage_values =
    PushChannelStage.creating_new ∷ PushChannelStage.needs_new_access_token
    ∷ PushChannelStage.closing_and_removing_consumer ∷ PushChannelStage.open_if_closed
    ∷ PushChannelStage.creating_new_or_open ∷ PushChannelStage.invalid_consumer_or_queue
    ∷ PushChannelStage.is_already_creating ∷ PushChannelStage.creating_instance
    ∷ PushChannelStage.creating_now ∷ PushChannelStage.creating_with_backoff
    ∷ PushChannelStage.backoff_expired ∷ []

pub push_channel_stage_found :
    (a : PushChannelStage)
    → decode push_channel_stage_code push_channel_stage_values (push_channel_stage_code a) ≡ some a
unfolding decode
push_channel_stage_found PushChannelStage.creating_new = refl
push_channel_stage_found _ = refl

instance pub push_channel_stage_coded : Coded PushChannelStage
push_channel_stage_coded = record {
  code = push_channel_stage_code;
  values = push_channel_stage_values;
  found = push_channel_stage_found;
}

pub data PushChannelChange : Type 0 where
  did_receive_data did_open did_close : PushChannelChange

abbrev pub push_channel_change_code : PushChannelChange → ℕ
push_channel_change_code PushChannelChange.did_receive_data = 0
push_channel_change_code PushChannelChange.did_open = 1
push_channel_change_code PushChannelChange.did_close = 2

abbrev pub push_channel_change_values : List PushChannelChange
push_channel_change_values =
    PushChannelChange.did_receive_data ∷ PushChannelChange.did_open ∷ PushChannelChange.did_close
    ∷ []

pub push_channel_change_found :
    (a : PushChannelChange)
    → decode push_channel_change_code push_channel_change_values (push_channel_change_code a)
      ≡ some a
unfolding decode
push_channel_change_found PushChannelChange.did_receive_data = refl
push_channel_change_found _ = refl

instance pub push_channel_change_coded : Coded PushChannelChange
push_channel_change_coded = record {
  code = push_channel_change_code;
  values = push_channel_change_values;
  found = push_channel_change_found;
}
