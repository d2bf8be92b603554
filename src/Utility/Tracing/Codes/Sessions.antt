-- ===== src/Utility/Tracing/Codes/Sessions.antt =====
-- ZMTracing.h: the documented numbers of the transport session.
use zmessaging_cocoa.Base.{ℕ, List, [], ◌∷◌, some, ◌≡◌, refl, decode, Coded}

pub data AccessTokenStage : Type 0 where
  sent_request received_response received_response_with_url_error : AccessTokenStage
  parsed_response got_new_token permanent_error token_failure : AccessTokenStage
  permanent_token_failure send_with_old_request re_sending task_canceled : AccessTokenStage
  request_finished : AccessTokenStage

abbrev pub access_token_stage_code : AccessTokenStage → ℕ
access_token_stage_code AccessTokenStage.sent_request = 0
access_token_stage_code AccessTokenStage.received_response = 1
access_token_stage_code AccessTokenStage.received_response_with_url_error = 12
access_token_stage_code AccessTokenStage.parsed_response = 2
access_token_stage_code AccessTokenStage.got_new_token = 3
access_token_stage_code AccessTokenStage.permanent_error = 4
access_token_stage_code AccessTokenStage.token_failure = 5
access_token_stage_code AccessTokenStage.permanent_token_failure = 6
access_token_stage_code AccessTokenStage.send_with_old_request = 100
access_token_stage_code AccessTokenStage.re_sending = 101
access_token_stage_code AccessTokenStage.task_canceled = 102
access_token_stage_code AccessTokenStage.request_finished = 103

abbrev pub access_token_stage_values : List AccessTokenStage
access_token_stage_values =
    AccessTokenStage.sent_request ∷ AccessTokenStage.received_response
    ∷ AccessTokenStage.received_response_with_url_error ∷ AccessTokenStage.parsed_response
    ∷ AccessTokenStage.got_new_token ∷ AccessTokenStage.permanent_error
    ∷ AccessTokenStage.token_failure ∷ AccessTokenStage.permanent_token_failure
    ∷ AccessTokenStage.send_with_old_request ∷ AccessTokenStage.re_sending
    ∷ AccessTokenStage.task_canceled ∷ AccessTokenStage.request_finished ∷ []

pub access_token_stage_found :
    (a : AccessTokenStage)
    → decode access_token_stage_code access_token_stage_values (access_token_stage_code a) ≡ some a
unfolding decode
access_token_stage_found AccessTokenStage.sent_request = refl
access_token_stage_found _ = refl

instance pub access_token_stage_coded : Coded AccessTokenStage
access_token_stage_coded = record {
  code = access_token_stage_code;
  values = access_token_stage_values;
  found = access_token_stage_found;
}

pub data TaskCompletion : Type 0 where
  all_completed_tasks access_token_response : TaskCompletion

abbrev pub task_completion_code : TaskCompletion → ℕ
task_completion_code TaskCompletion.all_completed_tasks = 0
task_completion_code TaskCompletion.access_token_response = 1

abbrev pub task_completion_values : List TaskCompletion
task_completion_values =
    TaskCompletion.all_completed_tasks ∷ TaskCompletion.access_token_response ∷ []

pub task_completion_found :
    (a : TaskCompletion)
    → decode task_completion_code task_completion_values (task_completion_code a) ≡ some a
unfolding decode
task_completion_found TaskCompletion.all_completed_tasks = refl
task_completion_found _ = refl

instance pub task_completion_coded : Coded TaskCompletion
task_completion_coded = record {
  code = task_completion_code;
  values = task_completion_values;
  found = task_completion_found;
}

pub data SchedulerStage : Type 0 where
  set_state set_request_count_limit processing_response : SchedulerStage
  did_receive_access_token timer_fired : SchedulerStage

abbrev pub scheduler_stage_code : SchedulerStage → ℕ
scheduler_stage_code SchedulerStage.set_state = 0
scheduler_stage_code SchedulerStage.set_request_count_limit = 1
scheduler_stage_code SchedulerStage.processing_response = 10
scheduler_stage_code SchedulerStage.did_receive_access_token = 11
scheduler_stage_code SchedulerStage.timer_fired = 100

abbrev pub scheduler_stage_values : List SchedulerStage
scheduler_stage_values =
    SchedulerStage.set_state ∷ SchedulerStage.set_request_count_limit
    ∷ SchedulerStage.processing_response ∷ SchedulerStage.did_receive_access_token
    ∷ SchedulerStage.timer_fired ∷ []

pub scheduler_stage_found :
    (a : SchedulerStage)
    → decode scheduler_stage_code scheduler_stage_values (scheduler_stage_code a) ≡ some a
unfolding decode
scheduler_stage_found SchedulerStage.set_state = refl
scheduler_stage_found _ = refl

instance pub scheduler_stage_coded : Coded SchedulerStage
scheduler_stage_coded = record {
  code = scheduler_stage_code;
  values = scheduler_stage_values;
  found = scheduler_stage_found;
}

pub data PingChange : Type 0 where
  start stop : PingChange

abbrev pub ping_change_code : PingChange → ℕ
ping_change_code PingChange.start = 0
ping_change_code PingChange.stop = 1

abbrev pub ping_change_values : List PingChange
ping_change_values = PingChange.start ∷ PingChange.stop ∷ []

pub ping_change_found :
    (a : PingChange) → decode ping_change_code ping_change_values (ping_change_code a) ≡ some a
unfolding decode
ping_change_found PingChange.start = refl
ping_change_found _ = refl

instance pub ping_change_coded : Coded PingChange
ping_change_coded = record {
  code = ping_change_code;
  values = ping_change_values;
  found = ping_change_found;
}

pub data ChannelEvent : Type 0 where
  did_complete_handshake did_receive_text_frame did_receive_binary_frame : ChannelEvent
  did_close web_socket_created : ChannelEvent

abbrev pub channel_event_code : ChannelEvent → ℕ
channel_event_code ChannelEvent.did_complete_handshake = 0
channel_event_code ChannelEvent.did_receive_text_frame = 1
channel_event_code ChannelEvent.did_receive_binary_frame = 2
channel_event_code ChannelEvent.did_close = 3
channel_event_code ChannelEvent.web_socket_created = 100

abbrev pub channel_event_values : List ChannelEvent
channel_event_values =
    ChannelEvent.did_complete_handshake ∷ ChannelEvent.did_receive_text_frame
    ∷ ChannelEvent.did_receive_binary_frame ∷ ChannelEvent.did_close
    ∷ ChannelEvent.web_socket_created ∷ []

pub channel_event_found :
    (a : ChannelEvent)
    → decode channel_event_code channel_event_values (channel_event_code a) ≡ some a
unfolding decode
channel_event_found ChannelEvent.did_complete_handshake = refl
channel_event_found _ = refl

instance pub channel_event_coded : Coded ChannelEvent
channel_event_coded = record {
  code = channel_event_code;
  values = channel_event_values;
  found = channel_event_found;
}
