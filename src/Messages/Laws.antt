-- ===== src/Messages/Laws.antt =====
-- ZMMessageExpirationTimer.m: every message that is given to the timer is watched.
use zmessaging_cocoa.Base.{
  ℕ, Bool, true, false, not, ◌&&◌, ◌||◌, Option, none, some, List, [], ◌∷◌, ◌≡◌, if◌then◌else◌,
  ◌==◌, arith, ==_iff, ==_refl, Bool-cases, ◌∙◌, subst, inl, inr, sym, ltb, refl,
}
use zmessaging_cocoa.Syncs.RemoteIdentifiers.{member}
use zmessaging_cocoa.Messages.{
  Messages, Note, Timers, timer_of, start_for_message, start_for_objects, passes, remove_timer,
  timer_did_fire,
}

abbrev pub was_expired : ℕ → List Note → Bool
was_expired x [] = false
was_expired x (Note.expired y ∷ ns) = y == x || was_expired x ns
was_expired x (Note.fired_at y ∷ ns) = was_expired x ns
was_expired x (Note.cancelled y ∷ ns) = was_expired x ns

-- What became of a message with a date that is over or not: it is expired if it is over, and else it
-- has a timer, which is for the date unless it had one before.
abbrev pub Outcome : {D : Type 0} → Bool → ℕ → ℕ → Timers D → Timers D → Type 0
Outcome true date y s t = was_expired y t.notes ≡ true
Outcome false date y s t =
    (timer_of y t.running ≡ (elim (timer_of y s.running) [ none ↦ some date | some d ↦ some d ]))
    × (was_expired y t.notes ≡ was_expired y s.notes)

module _ {D : Type 0} (m : Messages D) (filter : Option (D → ℕ → Bool)) where
  -- The data model library: a message that expires is no reason for another to pass the filter or
  -- not, or to get another date.
  pub record IsMessages : Type 0 where
    pub passes_still :
        (x y : ℕ) (d : D)
        → (x == y) ≡ false
        → passes m filter (m.expire x d) y ≡ passes m filter d y
    pub date_still :
        (x y : ℕ) (d : D)
        → (x == y) ≡ false
        → m.expiration_date (m.expire x d) y ≡ m.expiration_date d y

  expired-start :
      (now x y : ℕ) (s : Timers D)
      → was_expired y s.notes ≡ true
      → was_expired y (start_for_message m filter now x s).notes ≡ true
  unfolding start_for_message
  expired-start now x y s h = ground arith

  overdue-start :
      (now x y date : ℕ) (s : Timers D)
      → (x == y) ≡ true
      → ltb date now ≡ true
      → passes m filter s.outside y ≡ true
      → m.expiration_date s.outside y ≡ some date
      → was_expired y (start_for_message m filter now x s).notes ≡ true
  unfolding start_for_message
  overdue-start now x y date s here due h k =
      subst (λ z. was_expired y (start_for_message m filter now z s).notes ≡ true)
        (sym ((==_iff x y).0 here)) (ground (arith, ==_refl y))

  timed_self :
      (now y date : ℕ) (s : Timers D)
      → ltb date now ≡ false
      → passes m filter s.outside y ≡ true
      → m.expiration_date s.outside y ≡ some date
      → let t = start_for_message m filter now y s in
        (timer_of y t.running
          ≡ (elim (timer_of y s.running) [ none ↦ some date | some d ↦ some d ]))
        × (was_expired y t.notes ≡ was_expired y s.notes)
        × (passes m filter t.outside y ≡ passes m filter s.outside y)
        × (m.expiration_date t.outside y ≡ m.expiration_date s.outside y)
  unfolding start_for_message timer_of
  timed_self now y date s early h k = ground (arith, ==_refl y)

  timed-start :
      (now x y date : ℕ) (s : Timers D)
      → (x == y) ≡ true
      → ltb date now ≡ false
      → passes m filter s.outside y ≡ true
      → m.expiration_date s.outside y ≡ some date
      → let t = start_for_message m filter now x s in
        (timer_of y t.running
          ≡ (elim (timer_of y s.running) [ none ↦ some date | some d ↦ some d ]))
        × (was_expired y t.notes ≡ was_expired y s.notes)
        × (passes m filter t.outside y ≡ passes m filter s.outside y)
        × (m.expiration_date t.outside y ≡ m.expiration_date s.outside y)
  unfolding start_for_message timer_of
  timed-start now x y date s here early h k =
      let at_self = timed_self now y date s early h k in
      subst
        (λ z.
          let t = start_for_message m filter now z s in
          (timer_of y t.running
            ≡ (elim (timer_of y s.running) [ none ↦ some date | some d ↦ some d ]))
          × (was_expired y t.notes ≡ was_expired y s.notes)
          × (passes m filter t.outside y ≡ passes m filter s.outside y)
          × (m.expiration_date t.outside y ≡ m.expiration_date s.outside y))
        (sym ((==_iff x y).0 here)) at_self

  expired-start_for_objects :
      (now y : ℕ) (xs : List ℕ) (s : Timers D)
      → was_expired y s.notes ≡ true
      → was_expired y (start_for_objects m filter now xs s).notes ≡ true
  unfolding start_for_objects
  expired-start_for_objects now y [] s h = h
  expired-start_for_objects now y (x ∷ xs) s h =
      expired-start_for_objects now y xs (start_for_message m filter now x s)
        (expired-start now x y s h)

  -- Other messages keep their timers, and are not expired.
  other-start :
      (now x y : ℕ) (s : Timers D)
      → (x == y) ≡ false
      → let t = start_for_message m filter now x s in
        (timer_of y t.running ≡ timer_of y s.running)
        × (was_expired y t.notes ≡ was_expired y s.notes)
  unfolding start_for_message timer_of
  other-start now x y s h = ground arith

  passes-start :
      IsMessages
      → (now x y : ℕ) (s : Timers D) → (x == y) ≡ false
      → passes m filter (start_for_message m filter now x s).outside y ≡ passes m filter s.outside y
  unfolding start_for_message
  passes-start law now x y s h = ground (arith, law.passes_still x y s.outside h)

  date-start :
      IsMessages
      → (now x y : ℕ) (s : Timers D) → (x == y) ≡ false
      → m.expiration_date (start_for_message m filter now x s).outside y
        ≡ m.expiration_date s.outside y
  unfolding start_for_message
  date-start law now x y s h = ground (arith, law.date_still x y s.outside h)

  -- A message whose date is over.
  overdue-start_for_objects :
      IsMessages
      → (now y date : ℕ) (xs : List ℕ) (s : Timers D) → ltb date now ≡ true
      → member y xs ≡ true
      → passes m filter s.outside y ≡ true
      → m.expiration_date s.outside y ≡ some date
      → was_expired y (start_for_objects m filter now xs s).notes ≡ true
  unfolding start_for_objects member
  overdue-start_for_objects law now y date [] s due e h k = ground arith
  overdue-start_for_objects law now y date (x ∷ xs) s due e h k =
      let t = start_for_message m filter now x s in
      elim (Bool-cases (x == y)) [
        | inl here ↦
            expired-start_for_objects now y xs t (overdue-start now x y date s here due h k)
        | inr other ↦
            overdue-start_for_objects law now y date xs t due (ground arith)
              (passes-start law now x y s other ∙ h) (date-start law now x y s other ∙ k)
      ]

  -- A message whose date is not over, in a list or not.
  timed-start_for_objects :
      IsMessages
      → (now y date : ℕ) (xs : List ℕ) (s : Timers D) → ltb date now ≡ false
      → passes m filter s.outside y ≡ true
      → m.expiration_date s.outside y ≡ some date
      → let t = start_for_objects m filter now xs s in
        (timer_of y t.running ≡ (elim (timer_of y s.running) [
          | none ↦ if member y xs then some date else none
          | some d ↦ some d
        ]))
        × (was_expired y t.notes ≡ was_expired y s.notes)
  unfolding start_for_objects member
  timed-start_for_objects law now y date [] s early h k = ground arith
  timed-start_for_objects law now y date (x ∷ xs) s early h k =
      let t = start_for_message m filter now x s in
      elim (Bool-cases (x == y)) [
        | inl here ↦
            let kept = timed-start now x y date s here early h k in
            ground (
              arith,
              here,
              kept,
              timed-start_for_objects law now y date xs t early (kept.2 ∙ h) (kept.3 ∙ k),
            )
        | inr other ↦ ground (
          arith,
          other,
          other-start now x y s other,
          timed-start_for_objects law now y date xs t early (passes-start law now x y s other ∙ h)
              (date-start law now x y s other ∙ k),
        )
      ]

  -- Whichever objects are given to the timer together, a message among them that passes the filter
  -- and has an expiration date is expired if that date is over, and otherwise not newly expired but
  -- has a timer: the one that it had, or else one for that date. Expiring one message is taken to
  -- change neither the date of another nor whether it passes.
  pub messages_watched :
      IsMessages
      → (now y date : ℕ) (xs : List ℕ) (s : Timers D) → member y xs ≡ true
      → passes m filter s.outside y ≡ true
      → m.expiration_date s.outside y ≡ some date
      → Outcome (ltb date now) date y s (start_for_objects m filter now xs s)
  messages_watched law now y date xs s e h k = by_date (ltb date now) refl
    where
      by_date :
          (b : Bool) → ltb date now ≡ b → Outcome b date y s (start_for_objects m filter now xs s)
      by_date true due = overdue-start_for_objects law now y date xs s due e h k
      by_date false early = ground (arith, e, timed-start_for_objects law now y date xs s early h k)

  timer_of-remove_timer :
      (x y : ℕ) (ts : List (ℕ × ℕ))
      → timer_of y (remove_timer x ts) ≡ (if x == y then none else timer_of y ts)
  unfolding timer_of remove_timer
  timer_of-remove_timer x y [] = ground arith
  timer_of-remove_timer x y ((k, date) ∷ ts) =
      ground (arith, timer_of-remove_timer x y ts, ==_iff k x, ==_iff x y)

  -- When the timer of a message fires, the message has no timer any more, and it is newly expired
  -- exactly if it still exists and was not delivered. Nothing changes about other messages.
  pub fired_message :
      (x y : ℕ) (s : Timers D)
      → let t = timer_did_fire m filter x s in
        (timer_of y t.running ≡ (if x == y then none else timer_of y s.running))
        × (was_expired y t.notes ≡ (
            was_expired y s.notes
            || x == y && not (m.is_zombie s.outside x) && not (m.is_delivered s.outside x)))
  unfolding timer_did_fire
  fired_message x y s = ground (arith, timer_of-remove_timer x y s.running)
