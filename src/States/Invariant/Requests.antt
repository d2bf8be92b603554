-- ===== src/States/Invariant/Requests.antt =====
-- The invariant while a request is asked for.
use zmessaging_cocoa.Base.{ℕ, zero, suc, List, Option, none, some, ◌≡◌, refl, arith, tally, if_elim}
use zmessaging_cocoa.States.World.{
  AuthenticationPhase, ClientRegistrationPhase, SyncState, Transcoder, World, Handler,
}
use zmessaging_cocoa.States.Machine.{Machine, send, start_login_timer}
use zmessaging_cocoa.States.Requests.{
  Reply, ask_one, next_request_from, sync_objects, background_transcoders, quick_sync_if_due,
  note_foreground, login_request, expire_in_time, ensure_login_timer, or_else,
  authenticated_request, phase_request, unauthenticated_request, event_processing_request,
  catch_up_request, background_request, background_fetch_request, background_task_request,
  fetch_assets_request, to_request, with_handler, fetch_out_if_complete, task_out_if_complete,
  state_request, asks_again, request_loop, next_request,
}
use zmessaging_cocoa.States.Frame.{next_request_from_log, next_request_from-SameState}
use zmessaging_cocoa.States.Invariant.{Inv, go_to_keeps}

module _ {D : Type 0} (w : World D) where
  note_foreground-Inv : (m : Machine D) → Inv m → Inv (note_foreground w m)
  unfolding note_foreground
  note_foreground-Inv m v = ground arith

  pub quick_sync_if_due-Inv : (m : Machine D) → Inv m → Inv (quick_sync_if_due w m)
  unfolding quick_sync_if_due
  quick_sync_if_due-Inv m v =
      let v' = note_foreground-Inv m v in
      if_elim Inv _ _ _
        (λ _. go_to_keeps w SyncState.update_events_catch_up_phase_one _ refl refl v') (λ _. v')

  pub fetch_out_if_complete-Inv : (m : Machine D) → Inv m → Inv (fetch_out_if_complete w m)
  unfolding fetch_out_if_complete
  fetch_out_if_complete-Inv m v = ground (arith, go_to_keeps w SyncState.pre_background m)

  pub task_out_if_complete-Inv : (m : Machine D) → Inv m → Inv (task_out_if_complete w m)
  unfolding task_out_if_complete
  task_out_if_complete-Inv m v = ground (arith, go_to_keeps w SyncState.pre_background m)

  ask_one-Inv : (t : Transcoder) (m : Machine D) → Inv m → Inv (ask_one w t m).1
  unfolding ask_one
  ask_one-Inv t m v = ground arith

  ask_one-current : (t : Transcoder) (m : Machine D) → (ask_one w t m).1.current ≡ m.current
  unfolding ask_one
  ask_one-current t m = refl

  next_request_from-Inv :
      (ts : List Transcoder) (m : Machine D) → Inv m → Inv (next_request_from w ts m).1
  next_request_from-Inv ts m v =
      ground (arith, next_request_from_log w ts m, next_request_from-SameState w ts m)

  pub start_login_timer-Inv :
      (m : Machine D) → m.current ≡ SyncState.unauthenticated → Inv m → Inv (start_login_timer w m)
  unfolding start_login_timer send tally
  start_login_timer-Inv m e v = ground arith

  login_request-Inv :
      (m : Machine D) → m.current ≡ SyncState.unauthenticated → Inv m → Inv (login_request w m).1
  unfolding login_request ask_one ensure_login_timer expire_in_time
  login_request-Inv m e v =
      ground
        (arith, start_login_timer-Inv (record m { outside = (w.ask Transcoder.login m.outside).1 }))

  login_request-current : (m : Machine D) → (login_request w m).1.current ≡ m.current
  unfolding login_request ask_one ensure_login_timer expire_in_time start_login_timer send
  login_request-current m = ground arith

  or_else-Inv :
      (r : Reply w) (next : Machine D → Reply w)
      → Inv r.1
      → ((m : Machine D) → m.current ≡ r.1.current → Inv m → Inv (next m).1)
      → Inv (or_else w r next).1
  or_else-Inv (some r, m) next v keep = v
  or_else-Inv (none, m) next v keep = keep m refl v

  authenticated_request-Inv :
      (p : ClientRegistrationPhase) (m : Machine D)
      → m.current ≡ SyncState.unauthenticated
      → Inv m
      → Inv (authenticated_request w p m).1
  unfolding authenticated_request
  authenticated_request-Inv ClientRegistrationPhase.waiting_for_self_user m e v =
      ask_one-Inv Transcoder.self m v
  authenticated_request-Inv ClientRegistrationPhase.waiting_for_email_verification m e v =
      or_else-Inv _ _
        (or_else-Inv _ _ (ask_one-Inv Transcoder.user_profile_update m v) (λ m' same.
          login_request-Inv m' (ground (arith, ask_one-current Transcoder.user_profile_update m))))
        (λ m' same. ask_one-Inv Transcoder.self m')
  authenticated_request-Inv _ m e v = v

  phase_request-Inv :
      (p : AuthenticationPhase) (m : Machine D)
      → m.current ≡ SyncState.unauthenticated
      → Inv m
      → Inv (phase_request w p m).1
  unfolding phase_request
  phase_request-Inv AuthenticationPhase.authenticated m e v = authenticated_request-Inv _ m e v
  phase_request-Inv AuthenticationPhase.login_with_email m e v = login_request-Inv m e v
  phase_request-Inv AuthenticationPhase.login_with_phone m e v = login_request-Inv m e v
  phase_request-Inv AuthenticationPhase.waiting_for_email_verification m e v =
      login_request-Inv m e v
  phase_request-Inv AuthenticationPhase.unauthenticated m e v = login_request-Inv m e v
  phase_request-Inv _ m e v = ask_one-Inv _ m v

  fetch_assets_request-Inv : (m : Machine D) → Inv m → Inv (fetch_assets_request w m).1
  unfolding fetch_assets_request
  fetch_assets_request-Inv m v = ground (arith, ask_one-Inv Transcoder.asset m v)

  background_fetch_request-Inv : (m : Machine D) → Inv m → Inv (background_fetch_request w m).1
  unfolding background_fetch_request
  background_fetch_request-Inv m v =
      ground (arith, asked, fetch_out_if_complete-Inv (or_else w first (fetch_assets_request w)).1)
    where
      first : Reply w
      first = (
        to_request (with_handler Handler.save_missing_events)
            (ask_one w Transcoder.missing_update_events m).0,
        (ask_one w Transcoder.missing_update_events m).1,
      )

      asked : Inv (or_else w first (fetch_assets_request w)).1
      asked =
          or_else-Inv first (fetch_assets_request w)
            (ask_one-Inv Transcoder.missing_update_events m v) (λ m' _. fetch_assets_request-Inv m')

  pub state_request-Inv :
      (s : SyncState) (m : Machine D) → m.current ≡ s → Inv m → Inv (state_request w s m).1
  unfolding state_request unauthenticated_request event_processing_request catch_up_request
      background_request background_task_request send tally
  state_request-Inv SyncState.unauthenticated m e v =
      ground (arith, quick_sync_if_due-Inv m v, phase_request-Inv (w.auth_phase m.outside) m)
  state_request-Inv SyncState.unauthenticated_background m e v = v
  state_request-Inv SyncState.event_processing m e v =
      ground (arith, next_request_from-Inv sync_objects m v)
  state_request-Inv SyncState.background m e v =
      ground (arith, next_request_from-Inv background_transcoders m v)
  state_request-Inv SyncState.background_fetch m e v = background_fetch_request-Inv m v
  state_request-Inv SyncState.background_task m e v = ground (
    arith,
    ask_one-Inv Transcoder.client_message m v,
    task_out_if_complete-Inv (ask_one w Transcoder.client_message m).1,
  )
  state_request-Inv SyncState.update_events_catch_up_phase_one m e v = ground (
    arith,
    ask_one-Inv Transcoder.missing_update_events m v,
    ask_one-Inv Transcoder.user_profile_update (ask_one w Transcoder.missing_update_events m).1,
  )
  state_request-Inv SyncState.update_events_catch_up_phase_two m e v = ground (
    arith,
    ask_one-Inv Transcoder.missing_update_events m v,
    ask_one-Inv Transcoder.user_profile_update (ask_one w Transcoder.missing_update_events m).1,
  )
  state_request-Inv _ m e v = next_request_from-Inv _ m v

  abbrev Answers : Option (Reply w) → Type 0
  Answers none = Unit
  Answers (some r) = Inv r.1

  request_loop-Inv : (n : ℕ) (m : Machine D) → Inv m → Answers (request_loop w n m)
  unfolding request_loop
  request_loop-Inv zero m v = tt
  request_loop-Inv (suc n) m v =
      let reply = state_request w m.current m in
      let v' = state_request-Inv m.current m refl v in
      if_elim Answers (asks_again w m.current reply) (request_loop w n reply.1) (some reply)
        (λ _. request_loop-Inv n reply.1 v') (λ _. v')

  pub next_request-Inv : (m : Machine D) → Inv m → Inv (next_request w m).1
  unfolding next_request
  next_request-Inv m v =
      (elim (request_loop w 3 m)
          as (λ o. Answers o → Inv (elim o as (λ _. Reply w) [ none ↦ (none, m) | some r ↦ r ]).1) [
            | none ↦ λ _. v
            | some r ↦ λ a. a
          ])
        (request_loop-Inv 3 m v)
