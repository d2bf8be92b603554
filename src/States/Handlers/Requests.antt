-- ===== src/States/Handlers/Requests.antt =====
-- The calls of completion handlers while a request is asked for.
use zmessaging_cocoa.Base.{ℕ, zero, suc, List, Option, none, some, arith, tally, if_elim}
use zmessaging_cocoa.States.World.{
  AuthenticationPhase, ClientRegistrationPhase, SyncState, Transcoder, World, Handler,
}
use zmessaging_cocoa.States.Machine.{Machine, send, start_login_timer}
use zmessaging_cocoa.States.Requests.{
  Reply, ask_one, next_request_from, sync_objects, background_transcoders, login_request,
  expire_in_time, ensure_login_timer, or_else, authenticated_request, phase_request,
  unauthenticated_request, event_processing_request, catch_up_request, background_request,
  background_fetch_request, background_task_request, fetch_assets_request, to_request, with_handler,
  state_request, asks_again, request_loop, next_request,
}
use zmessaging_cocoa.States.Frame.{next_request_from_log, next_request_from-SameState}
use zmessaging_cocoa.States.Handlers.{
  SameOwed, SameOwed-trans, quick_sync_if_due-SameOwed, fetch_out_if_complete-SameOwed,
  task_out_if_complete-SameOwed,
}

module _ (h : ℕ) {D : Type 0} (w : World D) where
  ask_one-SameOwed : (t : Transcoder) (m : Machine D) → SameOwed h (ask_one w t m).1 m
  unfolding ask_one
  ask_one-SameOwed t m = ground arith

  next_request_from-SameOwed :
      (ts : List Transcoder) (m : Machine D) → SameOwed h (next_request_from w ts m).1 m
  next_request_from-SameOwed ts m =
      ground (arith, next_request_from_log w ts m, next_request_from-SameState w ts m)

  pub start_login_timer-SameOwed : (m : Machine D) → SameOwed h (start_login_timer w m) m
  unfolding start_login_timer send tally
  start_login_timer-SameOwed m = ground arith

  login_request-SameOwed : (m : Machine D) → SameOwed h (login_request w m).1 m
  unfolding login_request ask_one ensure_login_timer expire_in_time
  login_request-SameOwed m = ground (
    arith,
    start_login_timer-SameOwed (record m { outside = (w.ask Transcoder.login m.outside).1 }),
  )

  or_else-SameOwed :
      (m : Machine D) (r : Reply w) (next : Machine D → Reply w)
      → SameOwed h r.1 m
      → ((m' : Machine D) → SameOwed h (next m').1 m')
      → SameOwed h (or_else w r next).1 m
  or_else-SameOwed m (some r, m') next p keep = p
  or_else-SameOwed m (none, m') next p keep = SameOwed-trans h _ _ _ (keep m') p

  authenticated_request-SameOwed :
      (p : ClientRegistrationPhase) (m : Machine D) → SameOwed h (authenticated_request w p m).1 m
  unfolding authenticated_request
  authenticated_request-SameOwed ClientRegistrationPhase.waiting_for_self_user m =
      ask_one-SameOwed Transcoder.self m
  authenticated_request-SameOwed ClientRegistrationPhase.waiting_for_email_verification m =
      or_else-SameOwed m _ _
        (or_else-SameOwed m _ _ (ask_one-SameOwed Transcoder.user_profile_update m)
          login_request-SameOwed)
        (ask_one-SameOwed Transcoder.self)
  authenticated_request-SameOwed _ m = ground arith

  phase_request-SameOwed :
      (p : AuthenticationPhase) (m : Machine D) → SameOwed h (phase_request w p m).1 m
  unfolding phase_request
  phase_request-SameOwed AuthenticationPhase.authenticated m = authenticated_request-SameOwed _ m
  phase_request-SameOwed AuthenticationPhase.login_with_email m = login_request-SameOwed m
  phase_request-SameOwed AuthenticationPhase.login_with_phone m = login_request-SameOwed m
  phase_request-SameOwed AuthenticationPhase.waiting_for_email_verification m =
      login_request-SameOwed m
  phase_request-SameOwed AuthenticationPhase.unauthenticated m = login_request-SameOwed m
  phase_request-SameOwed _ m = ask_one-SameOwed _ m

  fetch_assets_request-SameOwed : (m : Machine D) → SameOwed h (fetch_assets_request w m).1 m
  unfolding fetch_assets_request
  fetch_assets_request-SameOwed m = ground (arith, ask_one-SameOwed Transcoder.asset m)

  background_fetch_request-SameOwed :
      (m : Machine D) → SameOwed h (background_fetch_request w m).1 m
  unfolding background_fetch_request
  background_fetch_request-SameOwed m = ground (
    arith,
    asked,
    fetch_out_if_complete-SameOwed h w (or_else w first (fetch_assets_request w)).1,
  )
    where
      first : Reply w
      first = (
        to_request (with_handler Handler.save_missing_events)
            (ask_one w Transcoder.missing_update_events m).0,
        (ask_one w Transcoder.missing_update_events m).1,
      )

      asked : SameOwed h (or_else w first (fetch_assets_request w)).1 m
      asked =
          or_else-SameOwed m first (fetch_assets_request w)
            (ask_one-SameOwed Transcoder.missing_update_events m) fetch_assets_request-SameOwed

  state_request-SameOwed : (s : SyncState) (m : Machine D) → SameOwed h (state_request w s m).1 m
  unfolding state_request unauthenticated_request event_processing_request catch_up_request
      background_request background_task_request send tally
  state_request-SameOwed SyncState.unauthenticated m =
      ground
        (arith, quick_sync_if_due-SameOwed h w m, phase_request-SameOwed (w.auth_phase m.outside) m)
  state_request-SameOwed SyncState.unauthenticated_background m = ground arith
  state_request-SameOwed SyncState.event_processing m =
      ground (arith, next_request_from-SameOwed sync_objects m)
  state_request-SameOwed SyncState.background m =
      ground (arith, next_request_from-SameOwed background_transcoders m)
  state_request-SameOwed SyncState.background_fetch m = background_fetch_request-SameOwed m
  state_request-SameOwed SyncState.background_task m = ground (
    arith,
    ask_one-SameOwed Transcoder.client_message m,
    task_out_if_complete-SameOwed h w (ask_one w Transcoder.client_message m).1,
  )
  state_request-SameOwed SyncState.update_events_catch_up_phase_one m = ground (
    arith,
    ask_one-SameOwed Transcoder.missing_update_events m,
    ask_one-SameOwed Transcoder.user_profile_update
        (ask_one w Transcoder.missing_update_events m).1,
  )
  state_request-SameOwed SyncState.update_events_catch_up_phase_two m = ground (
    arith,
    ask_one-SameOwed Transcoder.missing_update_events m,
    ask_one-SameOwed Transcoder.user_profile_update
        (ask_one w Transcoder.missing_update_events m).1,
  )
  state_request-SameOwed _ m = next_request_from-SameOwed _ m

  abbrev Answers : Machine D → Option (Reply w) → Type 0
  Answers m none = Unit
  Answers m (some r) = SameOwed h r.1 m

  Answers-trans :
      (m m' : Machine D) (o : Option (Reply w)) → SameOwed h m' m → Answers m' o → Answers m o
  Answers-trans m m' none p a = tt
  Answers-trans m m' (some r) p a = SameOwed-trans h _ _ _ a p

  request_loop-SameOwed : (n : ℕ) (m : Machine D) → Answers m (request_loop w n m)
  unfolding request_loop
  request_loop-SameOwed zero m = tt
  request_loop-SameOwed (suc n) m =
      let reply = state_request w m.current m in
      let p = state_request-SameOwed m.current m in
      if_elim (Answers m) (asks_again w m.current reply) (request_loop w n reply.1) (some reply)
        (λ _.
          Answers-trans m reply.1 (request_loop w n reply.1) p (request_loop-SameOwed n reply.1))
        (λ _. p)

  pub next_request-SameOwed : (m : Machine D) → SameOwed h (next_request w m).1 m
  unfolding next_request
  next_request-SameOwed m =
      (elim (request_loop w 3 m)
          as (λ o.
            Answers m o
            → SameOwed h (elim o as (λ _. Reply w) [ none ↦ (none, m) | some r ↦ r ]).1 m) [
              | none ↦ λ _. ground arith
              | some r ↦ λ a. a
            ])
        (request_loop-SameOwed 3 m)
