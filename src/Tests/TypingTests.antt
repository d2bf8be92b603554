-- ===== src/Tests/TypingTests.antt =====
-- Typing at concrete inputs.
use zmessaging_cocoa.Base.{true, some, List, [], ◌∷◌, ◌≡◌, refl}
use zmessaging_cocoa.Typing.Machine.{Typing, Event, init, timer_did_fire}
use zmessaging_cocoa.Typing.Laws.{exact_timeout_stuck}

abbrev told : List Event
told = Event.sets 0 true 4 9 ∷ Event.sets 500 true 5 9 ∷ Event.fires 60001 0 ∷ []

-- User 4 types in conversation 9 until 60000, and timer 0 is set for then.
abbrev one_typing : Typing
one_typing = record init {
  timeouts = (record { user = 4; conversation = 9; timeout = 60000 }) ∷ [];
  expiration_timer = some 0;
  next_prune_date = some 60000;
  next_timer = 1;
  scheduled = (0, 60000) ∷ [];
}

exact_timeout_stuck_example : timer_did_fire 60000 0 one_typing ≡ one_typing
exact_timeout_stuck_example = exact_timeout_stuck 60000 0 4 9 one_typing refl refl refl
