-- ===== src/States/Login.antt =====
-- The login request and the login timer.
use zmessaging_cocoa.Base.{
  sym, subst, ℕ, ◌+◌, ◌-◌, ltb, ◌<◌, true, Option, none, some, ◌≡◌, refl, ◌≢◌, inl, inr, arith,
  Option-cases, if_elim, ◌∷◌,
}
use zmessaging_cocoa.States.World.{Transcoder, World, Request, Command}
use zmessaging_cocoa.States.Machine.{
  Machine, send, start_login_timer, cancel_login_timer, login_timeout, request_failure_buffer_time,
  runs_login_timer,
}
use zmessaging_cocoa.States.Requests.{
  Reply, ask_one, login_request, expire_in_time, ensure_login_timer, expiring, to_request,
}

-- The request leaves `request_failure_buffer_time` before the login timer is due.
pub record ExpiresInTime {D : Type 0} (w : World D) (r : Request) (m : Machine D) : Type 0 where
  start : ℕ
  remaining : ℕ
  timer_started : m.login.last_timer_start ≡ some start
  expires : r.expires_after ≡ some remaining
  some_time_left : 0 < remaining
  before_timer : w.now m.outside + remaining + request_failure_buffer_time ≡ start + login_timeout

-- A login timer was started: it is kept with the credentials of the login, and the platform was asked
-- to fire it after `login_timeout`. An older one was cancelled.
pub record IsArmed {D : Type 0} (w : World D) (before after : Machine D) : Type 0 where
  timer :
      after.login.timer
      ≡ some (record {
        id = before.next_timer;
        credentials = w.login_credentials (cancel_login_timer w before).outside;
      })
  fires :
      after.log
      ≡ Command.start_timer before.next_timer login_timeout ∷ (cancel_login_timer w before).log
  start : after.login.last_timer_start ≡ some (w.now (cancel_login_timer w before).outside)

module _ {D : Type 0} (w : World D) where
  -- The login timer after a login request, if it was started before, and if not.
  abbrev pub TimerKept : Option ℕ → Machine D → Machine D → Type 0
  TimerKept none before after = IsArmed w before after
  TimerKept (some start) before after = after ≡ before

  -- What the login request leaves behind, in a login phase.
  abbrev pub InTime : Option Request → Machine D → Type 0
  InTime none m = Unit
  InTime (some r) m = ExpiresInTime w r m

  expire_in_time-InTime :
      (start : ℕ) (o : Option Request) (m : Machine D)
      → m.login.last_timer_start ≡ some start
      → InTime (expire_in_time w (some start) o m).0 (expire_in_time w (some start) o m).1
  unfolding expire_in_time
  expire_in_time-InTime start o m e =
      let due = start + login_timeout in
      let limit = w.now m.outside + request_failure_buffer_time in
      if_elim (λ (r : Reply w). InTime r.0 r.1) (ltb limit due)
        (to_request (expiring (due - limit)) o, m) (none, m) (λ early. in_time o early) (λ _. tt)
    where
      in_time :
          (r : Option Request)
          → ltb (w.now m.outside + request_failure_buffer_time) (start + login_timeout) ≡ true
          → InTime
              (to_request
                (expiring (start + login_timeout - (w.now m.outside + request_failure_buffer_time)))
                r)
              m
      in_time none early = tt
      in_time (some r) early = record {
        start = start;
        remaining = start + login_timeout - (w.now m.outside + request_failure_buffer_time);
        timer_started = e;
        expires = refl;
        some_time_left = ground arith;
        before_timer = ground arith;
      }

  timer_runs : (m : Machine D) → (ensure_login_timer w m).login.last_timer_start ≢ none
  unfolding ensure_login_timer start_login_timer send
  timer_runs m = ground arith

  started :
      (m : Machine D) → (start : ℕ) × ((ensure_login_timer w m).login.last_timer_start ≡ some start)
  started m = elim (Option-cases (ensure_login_timer w m).login.last_timer_start) [
    | inl e ↦ absurd (timer_runs m e)
    | inr found ↦ found
  ]

  ensure_login_timer-IsArmed :
      (m : Machine D) → m.login.last_timer_start ≡ none → IsArmed w m (ensure_login_timer w m)
  unfolding ensure_login_timer start_login_timer cancel_login_timer send
  ensure_login_timer-IsArmed m e = ground arith

  ensure_login_timer-TimerKept :
      (o : Option ℕ) (m : Machine D)
      → m.login.last_timer_start ≡ o
      → TimerKept o m (ensure_login_timer w m)
  unfolding ensure_login_timer
  ensure_login_timer-TimerKept none m e = ensure_login_timer-IsArmed m e
  ensure_login_timer-TimerKept (some start) m e = rw e refl

  expire_in_time-same :
      (start : Option ℕ) (o : Option Request) (m : Machine D) → (expire_in_time w start o m).1 ≡ m
  unfolding expire_in_time
  expire_in_time-same none o m = ground arith
  expire_in_time-same (some start) o m = ground arith

  -- In a phase in which the user logs in, a login request that the unauthenticated state gives out
  -- expires at a time still to come, and exactly `request_failure_buffer_time` before
  -- `login_timeout` has passed since the login timer was last started. If it was not started since
  -- the state was entered, it is now: it is kept, with the credentials, and set to fire after
  -- `login_timeout`; and if it was, nothing changes but by the transcoder's answer.
  pub login_request-InTime :
      (m : Machine D)
      → runs_login_timer w (ask_one w Transcoder.login m).1.outside ≡ true
      → let asked = (ask_one w Transcoder.login m).1 in
        InTime (login_request w m).0 (login_request w m).1
        × TimerKept asked.login.last_timer_start asked (login_request w m).1
  unfolding login_request
  login_request-InTime m e =
      let asked = ask_one w Transcoder.login m in
      let (start, s) = started asked.1 in
      let timed = ensure_login_timer w asked.1 in
      rw e (
        subst
            (λ o. InTime (expire_in_time w o asked.0 timed).0 (expire_in_time w o asked.0 timed).1)
            (sym s) (expire_in_time-InTime start asked.0 timed s),
        subst (TimerKept asked.1.login.last_timer_start asked.1)
            (sym (expire_in_time-same timed.login.last_timer_start asked.0 timed))
            (ensure_login_timer-TimerKept asked.1.login.last_timer_start asked.1 refl),
      )
