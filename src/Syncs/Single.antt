-- ===== src/Syncs/Single.antt =====
-- ZMSingleRequestSync.m: one request at a time. The request itself is what the transcoder answers,
-- an argument; `counter` is the `int` by which a response finds out that it came too late, a 32-bit
-- pattern.
use zmessaging_cocoa.Base.{
  ℕ, zero, suc, ◌+◌, ◌%◌, ◌<◌, Bool, true, false, ◌&&◌, Option, none, some, ◌≡◌, ◌⊎◌, arith, ◌==◌,
  if◌then◌else◌, is_none, List, [], ◌∷◌,
}
use zmessaging_cocoa.States.World.{ResponseStatus}

pub data Progress : Type 0 where
  idle in_progress completed : Progress

pub record Sync : Type 0 where
  pub status : Progress
  pub current_request : Option ℕ
  pub counter : ℕ

abbrev pub int_mod : ℕ
int_mod = 4294967296

abbrev pub is_in_progress : Progress → Bool
is_in_progress Progress.in_progress = true
is_in_progress _ = false

unfoldable pub init : Sync
init = record { status = Progress.idle; current_request = none; counter = 0 }

unfoldable pub ready_for_next_request : Sync → Sync
ready_for_next_request s = record s {
  counter = (s.counter + 1) % int_mod;
  current_request = none;
  status = Progress.in_progress;
}

unfoldable pub ready_for_next_request_if_not_busy : Sync → Sync
unfolding ready_for_next_request
ready_for_next_request_if_not_busy s =
    if is_none s.current_request then ready_for_next_request s else s

-- `answer` is what the transcoder returns. The request goes out with the counter of its start.
unfoldable pub next_request : Option ℕ → Sync → Option (ℕ × ℕ) × Sync
next_request answer s =
    if is_none s.current_request && is_in_progress s.status
    then (elim answer [
      | none ↦ (none, record s { current_request = none; status = Progress.completed })
      | some r ↦ (some (r, s.counter), record s { current_request = some r })
    ])
    else (none, s)

-- The part of `processResponse...` behind its test; the result says whether the transcoder is told.
process_valid : ResponseStatus → Sync → Bool × Sync
unfolding ready_for_next_request
process_valid ResponseStatus.try_again_later s =
    (false, ready_for_next_request (record s { current_request = none }))
process_valid ResponseStatus.temporary_error s =
    (false, record s { current_request = none; status = Progress.in_progress })
process_valid _ s = (true, record s { current_request = none; status = Progress.completed })

-- `processResponse:forRequest:counterValueAtStart:`
unfoldable pub process_response : ℕ → ResponseStatus → Sync → Bool × Sync
unfolding process_valid
process_response start result s = if start == s.counter then process_valid result s else (false, s)

abbrev reset_status : Progress → Progress
reset_status Progress.completed = Progress.idle
reset_status p = p

unfoldable pub reset_completion_state : Sync → Sync
reset_completion_state s = record s { status = reset_status s.status }

pub data Event : Type 0 where
  readies readies_if_not_busy resets : Event
  asks : Option ℕ → Event
  responds : ℕ → ResponseStatus → Event

pub step : Sync → Event → Sync
unfolding ready_for_next_request ready_for_next_request_if_not_busy reset_completion_state
    next_request process_response
step s Event.readies = ready_for_next_request s
step s Event.readies_if_not_busy = ready_for_next_request_if_not_busy s
step s Event.resets = reset_completion_state s
step s (Event.asks answer) = (next_request answer s).1
step s (Event.responds start result) = (process_response start result s).1

pub run : Sync → List Event → Sync
run s [] = s
run s (e ∷ es) = run (step s e) es

-- A request is out only while the sync is in progress, and the counter is an `int`.
pub record Inv (s : Sync) : Type 0 where
  pub busy : (s.current_request ≡ none) ⊎ (s.status ≡ Progress.in_progress)
  pub in_range : s.counter < int_mod

step-Inv : (s : Sync) (e : Event) → Inv s → Inv (step s e)
unfolding step
step-Inv s Event.readies v = ground arith
step-Inv s _ v = ground arith

run-Inv : (s : Sync) (es : List Event) → Inv s → Inv (run s es)
unfolding run
run-Inv s [] v = v
run-Inv s (e ∷ es) v = run-Inv (step s e) es (step-Inv s e v)

-- After any calls and responses, from the initial sync, a request is out only while the sync is in
-- progress, and the counter is below 2 ^ 32.
pub run_out_in_progress : (es : List Event) → Inv (run init es)
unfolding init
run_out_in_progress es = run-Inv init es (ground arith)

-- `readyForNextRequest` called n times.
pub ready_times : ℕ → Sync → Sync
ready_times zero s = s
ready_times (suc n) s = ready_times n (ready_for_next_request s)

counter-ready_times :
    (n : ℕ) (s : Sync) → s.counter < int_mod → (ready_times n s).counter ≡ (s.counter + n) % int_mod
unfolding ready_times ready_for_next_request
counter-ready_times zero s h = omega arith
counter-ready_times (suc n) s h =
    omega (arith, counter-ready_times n (ready_for_next_request s) (omega arith))

-- When a request is out and `readyForNextRequest` is then called at least once and fewer than
-- 2 ^ 32 times, the response to that request, of whatever status, is not passed on to the
-- transcoder and changes nothing.
pub abandoned_response_ignored :
    (s : Sync) (n r : ℕ) (result : ResponseStatus)
    → s.counter < int_mod
    → s.current_request ≡ some r
    → 0 < n
    → n < int_mod
    → process_response s.counter result (ready_times n s) ≡ (false, ready_times n s)
unfolding process_response
abandoned_response_ignored s n r result c out p h = ground (arith, counter-ready_times n s c)

-- A sync in progress with no request out sends the transcoder's request with the current counter
-- and asks for no other while it is out. After the response with that counter, a next request that
-- the transcoder has goes out exactly when the response was not passed on to it.
pub response_decides :
    (s : Sync) (r q : ℕ) (answer : Option ℕ) (result : ResponseStatus)
    → s.counter < int_mod
    → is_in_progress s.status ≡ true
    → s.current_request ≡ none
    → let sent = next_request (some r) s in
      let (told, after) = process_response s.counter result sent.1 in
      (sent.0 ≡ some (r, s.counter))
      × (next_request answer sent.1 ≡ (none, sent.1))
      × (is_none (next_request (some q) after).0 ≡ told)
unfolding next_request process_response
response_decides s r q answer ResponseStatus.success c p e = ground arith
response_decides s r q answer _ c p e = ground arith
