-- ===== src/Typing/Transcoder/Laws.antt =====
-- ZMTypingTranscoder.m: when the backend is told again.
use zmessaging_cocoa.Base.{
  ℕ, ◌+◌, Bool, true, false, Option, none, some, List, [], ◌∷◌, ◌≡◌, if◌then◌else◌, ltb, arith,
  ==_refl,
}
use zmessaging_cocoa.Typing.Machine.{Typing}
use zmessaging_cocoa.Typing.Transcoder.{
  Transcoder, TypingEvent, send_timeout, notify_typing, clear_typing, next_request,
  is_recent_and_equal,
}

-- The first key of a dictionary with one key.
pub record IsFirst (first_key : List (ℕ × Bool) → Option ℕ) : Type 0 where
  pub of_none : first_key [] ≡ none
  pub of_one : (c : ℕ) (b : Bool) → first_key ((c, b) ∷ []) ≡ some c

module _ (has_identifier : ℕ → Bool) (first_key : List (ℕ × Bool) → Option ℕ) where
  -- The request for one conversation that is told of, at a time; no other is waiting.
  abbrev pub asked : ℕ → Bool → ℕ → Transcoder → Option (ℕ × Bool) × Transcoder
  asked now b c s =
      next_request has_identifier first_key now (notify_typing has_identifier first_key b c s)

  abbrev pub cleared : ℕ → Transcoder → Transcoder
  cleared c s = clear_typing has_identifier first_key c s

  -- When nothing else is waiting, a request tells that the user started or stopped to type in a
  -- conversation that the backend knows and that was cleared before. If the same is told again
  -- later, a request is made exactly if the time of sending has passed; once the conversation was
  -- cleared again, it is made whatever the time.
  pub told_again :
      IsFirst first_key
      → (c : ℕ) (b : Bool) (now wait announced : ℕ) (typing : Option Typing)
        (last : Option TypingEvent)
      → has_identifier c ≡ true
      → let s : Transcoder = record {
        typing = typing;
        conversations = [];
        last_sent = last;
        announced = announced;
      } in
        let sent = asked now b c (cleared c s) in
        (sent.0 ≡ some (c, b))
        × ((asked (now + wait) b c sent.1).0
            ≡ (if ltb wait send_timeout then none else some (c, b)))
        × ((asked (now + wait) b c (cleared c sent.1)).0 ≡ some (c, b))
  unfolding next_request notify_typing clear_typing is_recent_and_equal
  told_again first c true now wait announced typing last h =
      ground (arith, h, ==_refl c, first.of_one c true)
  told_again first c false now wait announced typing last h =
      ground (arith, h, ==_refl c, first.of_one c false)
