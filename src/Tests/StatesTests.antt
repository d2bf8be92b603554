-- ===== src/Tests/StatesTests.antt =====
-- The sync states in a small outside world, and the theorems about them at runs in it.
use zmessaging_cocoa.Base.{
  ℕ, ◌+◌, Bool, true, false, ◌≡◌, refl, ◌⊎◌, Option, none, some, List, [], ◌∷◌, tally,
}
use zmessaging_cocoa.States.World.{
  World, SyncState, AuthenticationPhase, ClientRegistrationPhase, Transcoder,
}
use zmessaging_cocoa.States.Machine.{Machine, leave, send, is_done_with_login, runs_login_timer}
use zmessaging_cocoa.States.Transitions.{enter, go_to, go_to_within, switch_to, go_to-unfolds}
use zmessaging_cocoa.States.Requests.{ask_one, login_request, request_loop}
use zmessaging_cocoa.States.Events.{Event, blank, init, data_did_change, step, run}
use zmessaging_cocoa.States.Invariant.{Inv}
use zmessaging_cocoa.States.Invariant.Events.{run-init-Inv}
use zmessaging_cocoa.States.Gate.{IsPassive, is_login_state}
use zmessaging_cocoa.States.Gate.Stays.{run_stays_out}
use zmessaging_cocoa.States.Handlers.{completes_fetch, completes_task, pending}
use zmessaging_cocoa.States.Handlers.Starts.{fetch_starts, task_starts, handlers_called_once}
use zmessaging_cocoa.States.Processing.{Synced, event_processing_entered}
use zmessaging_cocoa.States.Diagram.{may_move}
use zmessaging_cocoa.States.Diagram.Steps.{step_moves}
use zmessaging_cocoa.States.Loop.{Ends, request_loop-Ends}
use zmessaging_cocoa.States.Login.{InTime, TimerKept, login_request-InTime}

-- Outside: whether the user is logged in, whether the application is in the background, whether
-- the last update event is known, and a clock.
record Outside : Type 0 where
  logged_in : Bool
  backgrounded : Bool
  knows_last_event : Bool
  clock : ℕ

abbrev phase_of : Bool → AuthenticationPhase
phase_of true = AuthenticationPhase.authenticated
phase_of false = AuthenticationPhase.login_with_email

-- The login transcoder and the clients' have a request, nothing else does.
abbrev ask_of : Transcoder → Option ℕ
ask_of Transcoder.login = some 1
ask_of Transcoder.client_message = some 2
ask_of _ = none

-- Every message takes a millisecond.
abbrev small : World Outside
small = record {
  auth_phase = λ d. phase_of d.logged_in;
  client_phase = λ d. ClientRegistrationPhase.registered;
  login_credentials = λ d. 7;
  is_self_user_complete = λ d. true;
  in_background = λ d. d.backgrounded;
  now = λ d. d.clock;
  has_last_update_event_id = λ d. d.knows_last_event;
  last_update_event_id = λ d. none;
  is_downloading_missing_notifications = λ d. false;
  is_downloading_last_update_event_id = λ d. false;
  connections_done = λ d. true;
  conversations_done = λ d. true;
  users_done = λ d. true;
  assets_outstanding = λ d. false;
  has_pending_messages = λ d. false;
  all_transcoders = Transcoder.self ∷ Transcoder.user ∷ [];
  ask = λ t d. (ask_of t, d);
  react = λ c d. record d { clock = d.clock + 1 };
}

abbrev away : Outside
away = record { logged_in = false; backgrounded = false; knows_last_event = true; clock = 0 }

abbrev home : Outside
home = record { logged_in = true; backgrounded = false; knows_last_event = true; clock = 0 }

abbrev home_in_background : Outside
home_in_background = record {
  logged_in = true;
  backgrounded = true;
  knows_last_event = true;
  clock = 0;
}

abbrev newly_home : Outside
newly_home = record { logged_in = true; backgrounded = false; knows_last_event = false; clock = 0 }

-- A session in the background fetches: the fetch with handler 5 is done, the task with 6 is not.
abbrev background_events : List (Event Outside)
background_events =
    Event.data_changes
    ∷ Event.starts_fetch 5
    ∷ Event.asks_request
    ∷ Event.data_changes
    ∷ Event.starts_task 6
    ∷ []

handlers_called_once_example :
    let m = run small (init small home_in_background) background_events in
    (tally (completes_fetch 5) m.log + pending 5 m.fetch.handler ≡ fetch_starts 5 background_events)
    × (tally (completes_task 5) m.log + pending 5 m.task.handler ≡ task_starts 5 background_events)
handlers_called_once_example = handlers_called_once 5 small home_in_background background_events

run-init-Inv_example : Inv (run small (init small home_in_background) background_events)
run-init-Inv_example = run-init-Inv small home_in_background background_events

small-IsPassive : IsPassive small
unfolding is_done_with_login
small-IsPassive = record { reacts = λ c d h. h; asks = λ t d h. h }

-- The user goes to the background and back, asks for requests and gets a login timer fired.
abbrev login_events : List (Event Outside)
login_events =
    Event.asks_request
    ∷ Event.enters_background
    ∷ Event.enters_foreground
    ∷ Event.authentication_data_changes
    ∷ Event.login_timer_fires (record { id = 0; credentials = 7 })
    ∷ []

away_is_out : is_done_with_login small away ≡ false
unfolding is_done_with_login
away_is_out = refl

run_stays_out_example : is_login_state (run small (init small away) login_events).current ≡ true
run_stays_out_example =
    run_stays_out small small-IsPassive away login_events away_is_out
      (tt, (tt, (tt, (tt, (tt, tt)))))

-- A machine at home in a given state.
abbrev at_home : SyncState → Machine Outside
at_home s = record (blank small home) { current = s }

finishes_slow_sync :
    (step small (at_home SyncState.slow_sync_phase_two) Event.data_changes).current
    ≡ SyncState.event_processing
unfolding step data_did_change go_to go_to_within enter switch_to leave send
finishes_slow_sync = refl

event_processing_entered_example :
    Synced small SyncState.slow_sync_phase_two (at_home SyncState.slow_sync_phase_two)
event_processing_entered_example =
    event_processing_entered small (at_home SyncState.slow_sync_phase_two) Event.data_changes
      finishes_slow_sync

step_moves_example :
    let after = (step small (at_home SyncState.event_processing) Event.enters_background).current in
    (after ≡ SyncState.event_processing)
    ⊎ (may_move {D = Outside} Event.enters_background SyncState.event_processing after ≡ true)
step_moves_example = step_moves small (at_home SyncState.event_processing) Event.enters_background

-- Logged in without a last update event, the catch-up goes on to the download of its identifier.
go_to-unfolds_example :
    let m = record (blank small newly_home) { current = SyncState.unauthenticated } in
    go_to small SyncState.update_events_catch_up_phase_one m
    ≡ enter small
        (go_to small)
        SyncState.update_events_catch_up_phase_one
        (switch_to small SyncState.update_events_catch_up_phase_one m)
go_to-unfolds_example =
    go_to-unfolds small SyncState.update_events_catch_up_phase_one
      (record (blank small newly_home) { current = SyncState.unauthenticated })

request_loop-Ends_example : Ends small (request_loop small 3 (at_home SyncState.unauthenticated))
request_loop-Ends_example = request_loop-Ends small 1 (at_home SyncState.unauthenticated)

logs_in :
    runs_login_timer small (ask_one small Transcoder.login (blank small away)).1.outside ≡ true
unfolding ask_one
logs_in = refl

login_request-InTime_example :
    let asked = (ask_one small Transcoder.login (blank small away)).1 in
    let reply = login_request small (blank small away) in
    InTime small reply.0 reply.1 × TimerKept small asked.login.last_timer_start asked reply.1
login_request-InTime_example = login_request-InTime small (blank small away) logs_in
