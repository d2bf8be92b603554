-- ===== src/States/Frame.antt =====
-- What the loops over transcoders leave alone.
use zmessaging_cocoa.Base.{Bool, false, List, [], ◌∷◌, ◌≡◌, refl, arith, tally}
use zmessaging_cocoa.States.World.{Transcoder, Command, World}
use zmessaging_cocoa.States.Machine.{Machine, send}
use zmessaging_cocoa.States.Transitions.{did_start_slow_sync}
use zmessaging_cocoa.States.Requests.{ask_one, next_request_from}

-- Two machines that agree on all but the log, the world and what the sync states note of requests.
pub record SameState {D : Type 0} (m n : Machine D) : Type 0 where
  pub same_current : m.current ≡ n.current
  pub same_fetch : m.fetch ≡ n.fetch
  pub same_task : m.task ≡ n.task
  pub same_login : m.login ≡ n.login
  pub same_activity : m.has_activity ≡ n.has_activity

module _ {D : Type 0} (w : World D) where
  pub next_request_from_log :
      (ts : List Transcoder) (m : Machine D) → (next_request_from w ts m).1.log ≡ m.log
  unfolding next_request_from ask_one
  next_request_from_log [] m = refl
  next_request_from_log (t ∷ ts) m =
      ground (arith, next_request_from_log ts (record m { outside = (w.ask t m.outside).1 }))

  pub next_request_from-SameState :
      (ts : List Transcoder) (m : Machine D) → SameState (next_request_from w ts m).1 m
  unfolding next_request_from ask_one
  next_request_from-SameState [] m = ground arith
  next_request_from-SameState (t ∷ ts) m =
      ground (arith, next_request_from-SameState ts (record m { outside = (w.ask t m.outside).1 }))

  pub did_start_slow_sync-SameState :
      (ts : List Transcoder) (m : Machine D) → SameState (did_start_slow_sync w ts m) m
  unfolding did_start_slow_sync send
  did_start_slow_sync-SameState [] m = ground arith
  did_start_slow_sync-SameState (t ∷ ts) m =
      ground (arith, did_start_slow_sync-SameState ts (send w (Command.set_needs_slow_sync t) m))

  -- Telling every transcoder adds no other message to the log.
  pub tally-did_start_slow_sync :
      (p : Command → Bool) (ts : List Transcoder) (m : Machine D)
      → ((t : Transcoder) → p (Command.set_needs_slow_sync t) ≡ false)
      → tally p (did_start_slow_sync w ts m).log ≡ tally p m.log
  unfolding did_start_slow_sync send tally
  tally-did_start_slow_sync p [] m h = refl
  tally-did_start_slow_sync p (t ∷ ts) m h =
      ground (arith, h t, tally-did_start_slow_sync p ts (send w (Command.set_needs_slow_sync t) m))
