-- ===== src/Tests/OfflineTests.antt =====
-- Hot fixes, the search table, expiring messages, incomplete conversations, the whitelist and
-- interrupted calls at concrete inputs.
use zmessaging_cocoa.Base.{ℕ, true, false, none, some, [], ◌∷◌, ◌++◌, ◌+◌, ◌≡◌, ◌⊎◌, suc, refl, ltb}
use zmessaging_cocoa.Syncs.RemoteIdentifiers.{member}
use zmessaging_cocoa.HotFix.{Directory, Store, apply_for_version, patch_with}
use zmessaging_cocoa.HotFix.Versions.{Text}
use zmessaging_cocoa.HotFix.Laws.{SameStore, HasRun, apply_times, applied_once}
use zmessaging_cocoa.Search as SearchTable
use zmessaging_cocoa.Search.Laws.{replaced_user, asset_listed}
use zmessaging_cocoa.Messages as Expiring
use zmessaging_cocoa.Messages.Laws.{IsMessages, messages_watched, Outcome}
use zmessaging_cocoa.Conversations as Conversing
use zmessaging_cocoa.Conversations.Laws.{processed_conversation}
use zmessaging_cocoa.Calling as Phoning
use zmessaging_cocoa.Calling.Laws.{interrupted_and_resumed, resumed}

-- "1.2" and "1.10".
abbrev older : Text
older = b'1' ∷ b'.' ∷ b'2' ∷ []

abbrev newer : Text
newer = b'1' ∷ b'.' ∷ b'1' ∷ b'0' ∷ []

abbrev directory : Directory ℕ
directory = record { patches_of = patch_with newer (λ n. suc n) ∷ [] }

abbrev store : Store ℕ
store = record {
  skips_hot_fixes = false;
  last_saved_version = some older;
  stored = 0;
  announced = 0;
  versions_made = 0;
}

-- The addresses of number objects go up.
abbrev address : ℕ → ℕ → Text → ℕ
address n i t = n + n + i

abbrev applied : Store ℕ
applied = apply_for_version address (λ n. n) directory newer store

applied_once_example :
    SameStore store applied
    ⊎ (HasRun address (λ n. n) directory newer store applied
        × SameStore applied (apply_times address (λ n. n) directory 3 newer applied))
applied_once_example = applied_once address (λ n. n) directory 3 newer store

-- The patch of 1.10 ran, and runs again when the app goes back to 1.2 and on to 1.10.
abbrev updated_again : Store ℕ
updated_again =
    apply_for_version address (λ n. n) directory newer
      (apply_for_version address (λ n. n) directory older applied)

patch_runs_again : (applied.stored ≡ 1) × (updated_again.stored ≡ 2)
unfolding apply_for_version patch_with
patch_runs_again = (refl, refl)

abbrev table : SearchTable.Table
table =
    (
      1,
      (record { search_user = record { object = 5; remote_identifier = 6 }; asset_id = none }) ∷ [],
    )
    ∷ []

replaced_user_example :
    (member 6 (SearchTable.all_user_ids (SearchTable.replace_user_id 6 9 table)) ≡ false)
    × (asset_listed 6 9 (SearchTable.all_asset_ids (SearchTable.replace_user_id 6 9 table)) ≡ true)
replaced_user_example = replaced_user 6 6 9 9 table

abbrev messages : Expiring.Messages ℕ
messages = record {
  is_of_entity = λ x. true;
  will_expire = λ d x. true;
  expiration_date = λ d x. some x;
  is_zombie = λ d x. false;
  is_delivered = λ d x. false;
  expire = λ x d. d;
  did_fail_to_send = λ x d. d;
}

messages-IsMessages : IsMessages messages none
messages-IsMessages = record { passes_still = λ x y d e. refl; date_still = λ x y d e. refl }

abbrev timers : Expiring.Timers ℕ
timers = record { running = []; notes = []; announced = 0; tear_down_called = false; outside = 0 }

messages_watched_example :
    Outcome (ltb 7 5) 7 7 timers (Expiring.start_for_objects messages none 5 (3 ∷ 7 ∷ []) timers)
unfolding member
messages_watched_example =
    messages_watched messages none messages-IsMessages 5 7 7 (3 ∷ 7 ∷ []) timers refl refl refl

-- A range is empty if it is 0.
abbrev conversations : Conversing.ConversationData ℕ ℕ
conversations = record {
  is_conversation = λ c. true;
  gap = λ d c. some c;
  gap_in_window = λ d c w. w;
  is_empty_range = λ r. ltb r 1;
  is_archived = λ d c. false;
  is_blocked = λ d c. false;
  sort = λ d cs. cs;
  save_or_rollback = λ d. d;
}

abbrev cache : Conversing.Cache ℕ ℕ
cache = record {
  to_fetch = 3 ∷ [];
  whitelisted = 3 ∷ [];
  windows = (4, 2) ∷ [];
  torn_down = false;
  notes = [];
  outside = 0;
}

processed_conversation_example :
    let t = Conversing.process_conversation conversations 4 cache in
    (member 4 (Conversing.incomplete_whitelisted conversations t) ≡ true)
    × (member 4 (Conversing.incomplete_not_whitelisted conversations t) ≡ false)
    × (Conversing.has_gap conversations (Conversing.gap_for_conversation conversations 4 t) ≡ true)
    × (member 3 t.to_fetch ≡ true)
unfolding Conversing.window_of member
processed_conversation_example = processed_conversation conversations 4 3 cache

abbrev phone : Phoning.Device
phone = record {
  exists = λ c. true;
  participants = λ c. 2;
  call_device_is_active = λ c. true;
  current_calls = 0;
}

interrupted_and_resumed_example :
    let h : Phoning.Handler = record {
      stored = none;
      active = some 8;
      can_update_call_state = true;
      log = [];
    } in
    let out = Phoning.call_event phone Phoning.CallState.incoming h in
    (Phoning.is_interrupted phone 8 out ≡ true)
    × (Phoning.call_event phone Phoning.CallState.incoming out ≡ out)
    × (Phoning.call_event phone Phoning.CallState.disconnected out ≡ record h {
      log =
          Phoning.Command.enqueue_delayed_save ∷ resumed phone 8
          ++ Phoning.Command.store_conversation none
            ∷ Phoning.Command.log_interruption 8 false
            ∷ Phoning.Command.save_or_rollback
            ∷ Phoning.Command.join_channel 8
            ∷ Phoning.Command.store_conversation (some 8)
            ∷ Phoning.Command.log_interruption 8 true
            ∷ [];
    })
interrupted_and_resumed_example =
    interrupted_and_resumed phone phone 8 Phoning.CallState.incoming [] refl refl
