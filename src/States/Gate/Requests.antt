-- ===== src/States/Gate/Requests.antt =====
-- The login states while requests are asked for.
use zmessaging_cocoa.Base.{ℕ, zero, suc, Option, none, some, ◌≡◌, refl, ap, arith, if_elim}
use zmessaging_cocoa.States.World.{
  AuthenticationPhase, ClientRegistrationPhase, SyncState, Transcoder, World,
}
use zmessaging_cocoa.States.Machine.{Machine}
use zmessaging_cocoa.States.Requests.{
  Reply, ask_one, quick_sync_if_due, note_foreground, login_request, expire_in_time,
  ensure_login_timer, or_else, authenticated_request, phase_request, unauthenticated_request,
  state_request, asks_again, request_loop, next_request,
}
use zmessaging_cocoa.States.Gate.{
  IsPassive, is_login_state, Out, start_login_timer-Out, ask_one-Out,
}

module _ {D : Type 0} (w : World D) (passive : IsPassive w) where
  pub quick_sync_if_due-Out :
      (m : Machine D) → Out w passive m → Out w passive (quick_sync_if_due w m)
  unfolding quick_sync_if_due note_foreground
  quick_sync_if_due-Out m o = ground arith

  pub login_request-Out : (m : Machine D) → Out w passive m → Out w passive (login_request w m).1
  unfolding login_request ensure_login_timer expire_in_time
  login_request-Out m o =
      let o' = ask_one-Out w passive Transcoder.login m o in
      ground (arith, o', start_login_timer-Out w passive (ask_one w Transcoder.login m).1 o')

  pub or_else-Out :
      (r : Reply w) (next : Machine D → Reply w)
      → Out w passive r.1
      → ((m : Machine D) → Out w passive m → Out w passive (next m).1)
      → Out w passive (or_else w r next).1
  or_else-Out (some r, m) next o keep = o
  or_else-Out (none, m) next o keep = keep m o

  pub authenticated_request-Out :
      (p : ClientRegistrationPhase) (m : Machine D)
      → Out w passive m
      → Out w passive (authenticated_request w p m).1
  unfolding authenticated_request
  authenticated_request-Out ClientRegistrationPhase.waiting_for_self_user m o =
      ask_one-Out w passive Transcoder.self m o
  authenticated_request-Out ClientRegistrationPhase.waiting_for_email_verification m o =
      or_else-Out _ _
        (or_else-Out _ _ (ask_one-Out w passive Transcoder.user_profile_update m o)
          login_request-Out)
        (ask_one-Out w passive Transcoder.self)
  authenticated_request-Out _ m o = o

  pub phase_request-Out :
      (p : AuthenticationPhase) (m : Machine D)
      → Out w passive m
      → Out w passive (phase_request w p m).1
  unfolding phase_request
  phase_request-Out AuthenticationPhase.authenticated m o = authenticated_request-Out _ m o
  phase_request-Out AuthenticationPhase.login_with_email m o = login_request-Out m o
  phase_request-Out AuthenticationPhase.login_with_phone m o = login_request-Out m o
  phase_request-Out AuthenticationPhase.waiting_for_email_verification m o = login_request-Out m o
  phase_request-Out AuthenticationPhase.unauthenticated m o = login_request-Out m o
  phase_request-Out _ m o = ask_one-Out w passive _ m o

  pub state_request-Out :
      (s : SyncState) (m : Machine D)
      → m.current ≡ s
      → Out w passive m
      → Out w passive (state_request w s m).1
  unfolding state_request unauthenticated_request
  state_request-Out SyncState.unauthenticated m e o =
      if_elim (λ (r : Reply w). Out w passive r.1) _ _ _ (λ _. quick_sync_if_due-Out m o)
        (λ _. phase_request-Out (w.auth_phase m.outside) m o)
  state_request-Out SyncState.unauthenticated_background m e o = o
  state_request-Out _ m e o = cc (o.here, ap is_login_state e)

  abbrev pub Answers : Option (Reply w) → Type 0
  Answers none = Unit
  Answers (some r) = Out w passive r.1

  pub request_loop-Out : (n : ℕ) (m : Machine D) → Out w passive m → Answers (request_loop w n m)
  unfolding request_loop
  request_loop-Out zero m o = tt
  request_loop-Out (suc n) m o =
      let reply = state_request w m.current m in
      let o' = state_request-Out m.current m refl o in
      if_elim Answers (asks_again w m.current reply) (request_loop w n reply.1) (some reply)
        (λ _. request_loop-Out n reply.1 o') (λ _. o')

  pub next_request-Out : (m : Machine D) → Out w passive m → Out w passive (next_request w m).1
  unfolding next_request
  next_request-Out m o =
      (elim (request_loop w 3 m)
          as (λ a.
            Answers a
            → Out w passive (elim a as (λ _. Reply w) [ none ↦ (none, m) | some r ↦ r ]).1) [
              | none ↦ λ _. o
              | some r ↦ λ a. a
            ])
        (request_loop-Out 3 m o)
