-- ===== src/States/Loop.antt =====
-- The loop of `nextRequest` and its end.
use zmessaging_cocoa.Base.{
  ℕ, zero, suc, Bool, true, false, Option, none, some, ◌≡◌, refl, ◌∙◌, ◌⊎◌, inl, inr, arith,
  Bool-cases, if_elim,
}
use zmessaging_cocoa.States.World.{
  AuthenticationPhase, ClientRegistrationPhase, SyncState, Transcoder, World, Handler,
}
use zmessaging_cocoa.States.Machine.{Machine, send, start_login_timer}
use zmessaging_cocoa.States.Requests.{
  Reply, ask_one, sync_objects, background_transcoders, quick_sync_if_due, note_foreground,
  login_request, expire_in_time, ensure_login_timer, or_else, authenticated_request, phase_request,
  unauthenticated_request, event_processing_request, catch_up_request, background_request,
  background_fetch_request, background_task_request, fetch_assets_request, to_request, with_handler,
  fetch_out_if_complete, task_out_if_complete, state_request, asks_again, request_loop,
  next_request,
}
use zmessaging_cocoa.States.Landing.{lands_catch_up, lands_pre_background, go_to-Lands}
use zmessaging_cocoa.States.Frame.{next_request_from-SameState}

-- The states whose `nextRequest` may move the machine.
abbrev pub is_restless : SyncState → Bool
is_restless SyncState.unauthenticated = true
is_restless SyncState.background_fetch = true
is_restless SyncState.background_task = true
is_restless _ = false

-- Where asking may move the machine.
abbrev pub asks_to : SyncState → SyncState → Bool
asks_to SyncState.unauthenticated c = lands_catch_up c
asks_to SyncState.background_fetch c = lands_pre_background c
asks_to SyncState.background_task c = lands_pre_background c
asks_to _ c = false

module _ {D : Type 0} (w : World D) where
  -- Asking leaves the state alone, or moves the machine out of a restless state.
  abbrev pub Settles : SyncState → SyncState → Type 0
  Settles s c = (c ≡ s) ⊎ (asks_to s c ≡ true)

  pub quick_sync_if_due-current :
      (m : Machine D)
      → ((quick_sync_if_due w m).current ≡ m.current)
        ⊎ (lands_catch_up (quick_sync_if_due w m).current ≡ true)
  unfolding quick_sync_if_due note_foreground
  quick_sync_if_due-current m = ground (
    arith,
    go_to-Lands w SyncState.update_events_catch_up_phase_one m,
    go_to-Lands w SyncState.update_events_catch_up_phase_one
        (record m { login = record (m.login) { did_launch_in_foreground = true } }),
  )

  login_request-current : (m : Machine D) → (login_request w m).1.current ≡ m.current
  unfolding login_request ask_one ensure_login_timer expire_in_time start_login_timer send
  login_request-current m = ground arith

  ask_one-current : (t : Transcoder) (m : Machine D) → (ask_one w t m).1.current ≡ m.current
  unfolding ask_one
  ask_one-current t m = refl

  or_else-current :
      (m : Machine D) (r : Reply w) (next : Machine D → Reply w)
      → r.1.current ≡ m.current
      → ((m' : Machine D) → (next m').1.current ≡ m'.current)
      → (or_else w r next).1.current ≡ m.current
  or_else-current m (some r, m') next p keep = p
  or_else-current m (none, m') next p keep = keep m' ∙ p

  authenticated_request-current :
      (p : ClientRegistrationPhase) (m : Machine D)
      → (authenticated_request w p m).1.current ≡ m.current
  unfolding authenticated_request
  authenticated_request-current ClientRegistrationPhase.waiting_for_self_user m =
      ask_one-current Transcoder.self m
  authenticated_request-current ClientRegistrationPhase.waiting_for_email_verification m =
      or_else-current m _ _
        (or_else-current m _ _ (ask_one-current Transcoder.user_profile_update m)
          login_request-current)
        (ask_one-current Transcoder.self)
  authenticated_request-current _ m = refl

  phase_request-current :
      (p : AuthenticationPhase) (m : Machine D) → (phase_request w p m).1.current ≡ m.current
  unfolding phase_request
  phase_request-current AuthenticationPhase.authenticated m = authenticated_request-current _ m
  phase_request-current AuthenticationPhase.login_with_email m = login_request-current m
  phase_request-current AuthenticationPhase.login_with_phone m = login_request-current m
  phase_request-current AuthenticationPhase.waiting_for_email_verification m =
      login_request-current m
  phase_request-current AuthenticationPhase.unauthenticated m = login_request-current m
  phase_request-current _ m = ask_one-current _ m

  fetch_assets_request-current : (m : Machine D) → (fetch_assets_request w m).1.current ≡ m.current
  unfolding fetch_assets_request
  fetch_assets_request-current m = ground (arith, ask_one-current Transcoder.asset m)

  background_fetch_request-Settles :
      (m : Machine D)
      → m.current ≡ SyncState.background_fetch
      → Settles SyncState.background_fetch (background_fetch_request w m).1.current
  unfolding background_fetch_request fetch_out_if_complete
  background_fetch_request-Settles m e = ground (
    arith,
    asked,
    go_to-Lands w SyncState.pre_background (or_else w first (fetch_assets_request w)).1,
  )
    where
      first : Reply w
      first = (
        to_request (with_handler Handler.save_missing_events)
            (ask_one w Transcoder.missing_update_events m).0,
        (ask_one w Transcoder.missing_update_events m).1,
      )

      asked : (or_else w first (fetch_assets_request w)).1.current ≡ m.current
      asked =
          or_else-current m first (fetch_assets_request w)
            (ask_one-current Transcoder.missing_update_events m) fetch_assets_request-current

  state_request-Settles :
      (s : SyncState) (m : Machine D) → m.current ≡ s → Settles s (state_request w s m).1.current
  unfolding state_request unauthenticated_request event_processing_request catch_up_request
      background_request background_task_request task_out_if_complete send
  state_request-Settles SyncState.unauthenticated m e =
      ground (arith, quick_sync_if_due-current m, phase_request-current (w.auth_phase m.outside) m)
  state_request-Settles SyncState.unauthenticated_background m e = inl e
  state_request-Settles SyncState.event_processing m e =
      ground (arith, next_request_from-SameState w sync_objects m)
  state_request-Settles SyncState.background m e =
      ground (arith, next_request_from-SameState w background_transcoders m)
  state_request-Settles SyncState.background_fetch m e = background_fetch_request-Settles m e
  state_request-Settles SyncState.background_task m e = ground (
    arith,
    ask_one-current Transcoder.client_message m,
    go_to-Lands w SyncState.pre_background (ask_one w Transcoder.client_message m).1,
  )
  state_request-Settles SyncState.update_events_catch_up_phase_one m e = ground (
    arith,
    ask_one-current Transcoder.missing_update_events m,
    ask_one-current Transcoder.user_profile_update (ask_one w Transcoder.missing_update_events m).1,
  )
  state_request-Settles SyncState.update_events_catch_up_phase_two m e = ground (
    arith,
    ask_one-current Transcoder.missing_update_events m,
    ask_one-current Transcoder.user_profile_update (ask_one w Transcoder.missing_update_events m).1,
  )
  state_request-Settles _ m e = inl ((next_request_from-SameState w _ m).same_current ∙ e)

  -- The loop's reply is that of the last state asked, which the loop does not ask again.
  abbrev pub Ends : Option (Reply w) → Type 0
  Ends o =
      (m : Machine D) × (o ≡ some (state_request w m.current m))
      × (asks_again w m.current (state_request w m.current m) ≡ false)

  settled_stays :
      (m : Machine D)
      → is_restless m.current ≡ false
      → asks_again w m.current (state_request w m.current m) ≡ false
  settled_stays m e = ground (arith, state_request-Settles m.current m refl)

  again_settles :
      (m : Machine D)
      → asks_again w m.current (state_request w m.current m) ≡ true
      → is_restless (state_request w m.current m).1.current ≡ false
  again_settles m e = ground (arith, state_request-Settles m.current m refl)

  -- With any number of rounds from two on, the loop of `nextRequest` does not run out of them: it
  -- returns the answer of a state that it asked and need not ask again, for the answer is a request
  -- or the machine is still in that state.
  pub request_loop-Ends : (n : ℕ) (m : Machine D) → Ends (request_loop w (suc (suc n)) m)
  unfolding request_loop
  request_loop-Ends n m = elim (Bool-cases (asks_again w m.current (state_request w m.current m))) [
    | inl again ↦
        let m' = (state_request w m.current m).1 in
        let last = settled_stays m' (again_settles m again) in (m', rw again (rw last refl), last)
    | inr stop ↦ (m, rw stop refl, stop)
  ]

  SettlesOr : SyncState → Option (Reply w) → Type 0
  SettlesOr s none = Unit
  SettlesOr s (some r) = Settles s r.1.current

  Settles-trans : (s t c : SyncState) → Settles s t → Settles t c → Settles s c
  Settles-trans s t c p q = ground arith

  SettlesOr-trans :
      (s t : SyncState) (o : Option (Reply w)) → Settles s t → SettlesOr t o → SettlesOr s o
  unfolding SettlesOr
  SettlesOr-trans s t none p q = tt
  SettlesOr-trans s t (some r) p q = Settles-trans s t r.1.current p q

  request_loop-Settles : (n : ℕ) (m : Machine D) → SettlesOr m.current (request_loop w n m)
  unfolding request_loop SettlesOr
  request_loop-Settles zero m = tt
  request_loop-Settles (suc n) m =
      let reply = state_request w m.current m in
      let p = state_request-Settles m.current m refl in
      if_elim (SettlesOr m.current) (asks_again w m.current reply) (request_loop w n reply.1)
        (some reply)
        (λ _.
          SettlesOr-trans m.current reply.1.current (request_loop w n reply.1) p
            (request_loop-Settles n reply.1))
        (λ _. p)

  pub next_request-Settles : (m : Machine D) → Settles m.current (next_request w m).1.current
  unfolding next_request SettlesOr
  next_request-Settles m =
      (elim (request_loop w 3 m)
          as (λ o.
            SettlesOr m.current o
            → Settles m.current
                (elim o as (λ _. Reply w) [ none ↦ (none, m) | some r ↦ r ]).1.current) [
                  | none ↦ λ _. inl refl
                  | some r ↦ λ a. a
                ])
        (request_loop-Settles 3 m)
