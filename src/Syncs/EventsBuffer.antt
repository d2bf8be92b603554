-- ===== src/Syncs/EventsBuffer.antt =====
-- ZMUpdateEventsBuffer.m: update events kept back during a sync. An event is its identifier; the
-- consumer is what it has been given.
use zmessaging_cocoa.Base.{ℕ, List, [], ◌∷◌, ◌++◌, ◌≡◌, refl, sym, ap, ◌∙◌, ◌==◌, if◌then◌else◌}

pub record Buffer : Type 0 where
  pub buffered : List ℕ
  pub consumed : List ℕ

unfoldable pub init : Buffer
init = record { buffered = []; consumed = [] }

unfoldable pub add_update_event : ℕ → Buffer → Buffer
add_update_event e b = record b { buffered = b.buffered ++ e ∷ [] }

unfoldable pub process_all_events : Buffer → Buffer
process_all_events b = record { buffered = []; consumed = b.consumed ++ b.buffered }

unfoldable pub discard_all_update_events : Buffer → Buffer
discard_all_update_events b = record b { buffered = [] }

-- The first event with the identifier is removed.
unfoldable pub remove_first : ℕ → List ℕ → List ℕ
remove_first u [] = []
remove_first u (e ∷ es) = let rest = remove_first u es in if e == u then es else e ∷ rest

unfoldable pub discard_update_event : ℕ → Buffer → Buffer
unfolding remove_first
discard_update_event u b = record b { buffered = remove_first u b.buffered }

-- Events that come in, and processing in between.
pub data Event : Type 0 where
  adds : ℕ → Event
  processes : Event

pub step : Buffer → Event → Buffer
unfolding add_update_event process_all_events
step b (Event.adds e) = add_update_event e b
step b Event.processes = process_all_events b

pub run : Buffer → List Event → Buffer
run b [] = b
run b (e ∷ es) = run (step b e) es

pub added : List Event → List ℕ
added [] = []
added (Event.adds e ∷ es) = e ∷ added es
added (Event.processes ∷ es) = added es

append_assoc : (xs ys zs : List ℕ) → (xs ++ ys) ++ zs ≡ xs ++ (ys ++ zs)
append_assoc [] ys zs = refl
append_assoc (x ∷ xs) ys zs = ap (λ t. x ∷ t) (append_assoc xs ys zs)

append_nil : (xs : List ℕ) → xs ++ [] ≡ xs
append_nil [] = refl
append_nil (x ∷ xs) = ap (λ t. x ∷ t) (append_nil xs)

-- Whenever the buffer is processed between additions, what the consumer has been given followed by
-- what is buffered is what there was, followed by the events added, in order: none is lost, given
-- twice or overtaken.
pub events_in_order :
    (b : Buffer) (es : List Event)
    → (run b es).consumed ++ (run b es).buffered ≡ (b.consumed ++ b.buffered) ++ added es
unfolding run step added
events_in_order b [] = sym (append_nil (b.consumed ++ b.buffered))
events_in_order b (Event.adds e ∷ es) =
    events_in_order (step b (Event.adds e)) es
    ∙ cc (
      append_assoc b.consumed b.buffered (e ∷ []),
      append_assoc (b.consumed ++ b.buffered) (e ∷ []) (added es),
    )
events_in_order b (Event.processes ∷ es) =
    events_in_order (step b Event.processes) es
    ∙ ap (λ t. t ++ added es) (append_nil (b.consumed ++ b.buffered))
