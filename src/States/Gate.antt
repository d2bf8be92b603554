-- ===== src/States/Gate.antt =====
-- The login states, and the moves within them while the login is not complete.
mod Requests
pub mod Stays
use zmessaging_cocoa.Base.{
  sym, subst, Bool, true, false, List, [], ◌∷◌, ◌≡◌, refl, ap, arith, ◌∙◌, if_elim,
}
use zmessaging_cocoa.States.World.{SyncState, Transcoder, Command, World}
use zmessaging_cocoa.States.Machine.{
  Machine, leave, send, start_login_timer, cancel_login_timer, is_done_with_login, runs_login_timer,
}
use zmessaging_cocoa.States.Transitions.{
  go_to, enter, go_to-unfolds, go_to_within, switch_to, await_login,
}
use zmessaging_cocoa.States.Requests.{ask_one}
use zmessaging_cocoa.States.Events.{Event}
use zmessaging_cocoa.States.Transitions.{switch_to, go_to_within}
use zmessaging_cocoa.States.Machine.{leave}

abbrev pub is_login_state : SyncState → Bool
is_login_state SyncState.unauthenticated = true
is_login_state SyncState.unauthenticated_background = true
is_login_state _ = false

-- Messages to the transcoders and their requests do not by themselves complete a login: only what
-- comes from outside, a response or the user, does.
pub record IsPassive {D : Type 0} (w : World D) : Type 0 where
  pub reacts :
      (c : Command) (d : D)
      → is_done_with_login w d ≡ false
      → is_done_with_login w (w.react c d) ≡ false
  pub asks :
      (t : Transcoder) (d : D)
      → is_done_with_login w d ≡ false
      → is_done_with_login w (w.ask t d).1 ≡ false

-- The event does not complete the login.
abbrev pub KeepsOut : {D : Type 0} → World D → Event D → Type 0
KeepsOut w (Event.world_changes d) = is_done_with_login w d ≡ false
KeepsOut w _ = Unit {0}

abbrev pub AllKeepOut : {D : Type 0} → World D → List (Event D) → Type 0
AllKeepOut w [] = Unit {0}
AllKeepOut w (e ∷ es) = KeepsOut w e × AllKeepOut w es

module _ {D : Type 0} (w : World D) (passive : IsPassive w) where
  -- The login is not complete, and the machine is in a login state.
  pub record Out (m : Machine D) : Type 0 where
    pub out : is_done_with_login w m.outside ≡ false
    pub here : is_login_state m.current ≡ true

  pub send-Out : (c : Command) (m : Machine D) → Out m → Out (send w c m)
  unfolding send
  send-Out c m o = record { out = passive.reacts c m.outside o.out; here = o.here }

  pub cancel_login_timer-Out : (m : Machine D) → Out m → Out (cancel_login_timer w m)
  unfolding cancel_login_timer send
  cancel_login_timer-Out m o = grind (arith, passive.reacts)

  pub start_login_timer-Out : (m : Machine D) → Out m → Out (start_login_timer w m)
  unfolding start_login_timer
  start_login_timer-Out m o =
      let o' = cancel_login_timer-Out m o in
      record { out = passive.reacts _ _ o'.out; here = o'.here }

  pub ask_one-Out : (t : Transcoder) (m : Machine D) → Out m → Out (ask_one w t m).1
  unfolding ask_one
  ask_one-Out t m o = record { out = passive.asks t m.outside o.out; here = o.here }

  pub await_login-Out : (m : Machine D) → Out m → Out (await_login w m)
  unfolding await_login
  await_login-Out m o =
      let reset = send w Command.reset_registration_state m in
      let o' = send-Out Command.reset_registration_state m o in
      send-Out Command.add_observer _ (
        if_elim Out (runs_login_timer w reset.outside) (start_login_timer w reset) reset
          (λ _. start_login_timer-Out reset o') (λ _. o'))

  pub enter_unauthenticated-Out :
      (m : Machine D)
      → is_done_with_login w m.outside ≡ false
      → m.current ≡ SyncState.unauthenticated
      → Out (enter w (go_to w) SyncState.unauthenticated m)
  unfolding enter
  enter_unauthenticated-Out m out e =
      let observed = await_login w m in
      let o = await_login-Out m (record { out = out; here = rw e refl }) in
      let told = send w (Command.set_needs_slow_sync Transcoder.self) observed in
      rw out (
        if_elim Out (w.is_self_user_complete observed.outside) observed told (λ _. o)
          (λ _. send-Out (Command.set_needs_slow_sync Transcoder.self) observed o))

  pub switch_from_background :
      (m : Machine D)
      → m.current ≡ SyncState.unauthenticated_background
      → (switch_to w SyncState.unauthenticated m).outside ≡ m.outside
  unfolding switch_to leave
  switch_from_background m e = ground arith

  pub switch_to-current : (s : SyncState) (m : Machine D) → (switch_to w s m).current ≡ s
  unfolding switch_to
  switch_to-current s m = refl

  pub foreground-Out :
      (m : Machine D)
      → Out m
      → m.current ≡ SyncState.unauthenticated_background
      → Out (go_to w SyncState.unauthenticated m)
  foreground-Out m o e = subst Out (sym (go_to-unfolds w SyncState.unauthenticated m)) (
      enter_unauthenticated-Out (switch_to w SyncState.unauthenticated m)
        (ap (is_done_with_login w) (switch_from_background m e) ∙ o.out)
        (switch_to-current SyncState.unauthenticated m))

  pub switch_to_background-Out :
      (m : Machine D)
      → Out m
      → m.current ≡ SyncState.unauthenticated
      → Out (switch_to w SyncState.unauthenticated_background m)
  unfolding switch_to leave send cancel_login_timer
  switch_to_background-Out m o e = grind (arith, passive.reacts)

  pub background-Out :
      (m : Machine D)
      → Out m
      → m.current ≡ SyncState.unauthenticated
      → Out (go_to w SyncState.unauthenticated_background m)
  unfolding go_to go_to_within enter
  background-Out m o e = switch_to_background-Out m o e
