-- ===== src/Syncs/RemoteIdentifiers/Downloads.antt =====
-- What happens to an identifier of ZMRemoteIdentifierObjectSync.m until it is downloaded.
use zmessaging_cocoa.Base.{
  ℕ, zero, suc, ◌≤◌, ◌<◌, true, false, not, ◌&&◌, ◌||◌, ◌≡◌, refl, arith, List, [], ◌∷◌, length,
  ==_refl, sym, ◌∙◌, Option, none, some,
}
use zmessaging_cocoa.States.World.{ResponseStatus}
use zmessaging_cocoa.Syncs.RemoteIdentifiers.{
  member, union, minus, first, is_empty, Sync, IsSort, is_done, will_be_downloaded, next_request,
  set_as_needing_download, add_that_need_download, respond, Event, step, run,
}
use zmessaging_cocoa.Syncs.RemoteIdentifiers.Sets.{
  member-union, member-minus, member-first, length-first, length-minus, nonempty_if_member,
  empty_if_no_member,
}

-- No request's final answer, and no replacement of what is needed, concerns the identifier.
abbrev pub Spares : ℕ → Event → Type 0
Spares a (Event.sets ids) = member a ids ≡ true
Spares a (Event.responds ids ResponseStatus.success) = member a ids ≡ false
Spares a (Event.responds ids ResponseStatus.permanent_error) = member a ids ≡ false
Spares a _ = Unit {0}

abbrev pub AllSpare : ℕ → List Event → Type 0
AllSpare a [] = Unit {0}
AllSpare a (e ∷ es) = Spares a e × AllSpare a es

-- No response but an expired one is to a request for the identifier.
abbrev pub NotAnswered : ℕ → Event → Type 0
NotAnswered a (Event.responds ids ResponseStatus.expired) = Unit {0}
NotAnswered a (Event.responds ids _) = member a ids ≡ false
NotAnswered a _ = Unit {0}

abbrev pub AllNotAnswered : ℕ → List Event → Type 0
AllNotAnswered a [] = Unit {0}
AllNotAnswered a (e ∷ es) = NotAnswered a e × AllNotAnswered a es

pub member-will_be_downloaded :
    (a : ℕ) (s : Sync)
    → member a (will_be_downloaded s) ≡ (member a s.needed || member a s.in_progress)
unfolding will_be_downloaded
member-will_be_downloaded a s = member-union a s.needed s.in_progress

Pending : ℕ → Sync → Type 0
Pending a s = (member a s.needed || member a s.in_progress) ≡ true

next_request_pending :
    (a maximum : ℕ) (s : Sync)
    → let s' = (next_request maximum s).1 in
      (member a s'.needed || member a s'.in_progress)
      ≡ (member a s.needed || member a s.in_progress)
unfolding next_request
next_request_pending a maximum s =
    let ids = first maximum s.needed in
    ground (
      arith,
      member-minus a s.needed ids,
      member-union a s.in_progress ids,
      member-first a maximum s.needed,
    )

-- A request for `ids` carries at most the maximum number of identifiers, and only needed ones;
-- afterwards these are in progress and needed no more, every other identifier is needed or in
-- progress as before, and the set of identifiers that will be downloaded is the same.
pub request_moves_identifiers :
    (a maximum : ℕ) (s after : Sync) (ids : List ℕ)
    → next_request maximum s ≡ (some ids, after)
    → (length ids ≤ maximum)
      × ((member a ids && not (member a s.needed)) ≡ false)
      × (member a after.needed ≡ (member a s.needed && not (member a ids)))
      × (member a after.in_progress ≡ (member a s.in_progress || member a ids))
      × (member a (will_be_downloaded after) ≡ member a (will_be_downloaded s))
unfolding next_request
request_moves_identifiers a maximum s after ids e =
    let asked = first maximum s.needed in
    grind (
      arith,
      length-first maximum s.needed,
      member-first a maximum s.needed,
      member-minus a s.needed asked,
      member-union a s.in_progress asked,
      member-will_be_downloaded a s,
      member-will_be_downloaded a after,
    )

step-Pending :
    (sort : List ℕ → List ℕ) (k : IsSort sort) (a : ℕ) (s : Sync) (e : Event)
    → Spares a e
    → Pending a s
    → Pending a (step sort s e)
unfolding Pending step set_as_needing_download add_that_need_download respond
step-Pending sort k a s (Event.sets ids) h p =
    ground (arith, k.keeps a (union [] ids), member-union a [] ids)
step-Pending sort k a s (Event.adds ids) h p =
    ground (arith, k.keeps a (union s.needed ids), member-union a s.needed ids)
step-Pending sort k a s (Event.asks maximum) h p = next_request_pending a maximum s ∙ p
step-Pending sort k a s (Event.responds ids ResponseStatus.success) h p =
    ground (arith, member-minus a s.in_progress ids)
step-Pending sort k a s (Event.responds ids ResponseStatus.permanent_error) h p =
    ground (arith, member-minus a s.in_progress ids)
step-Pending sort k a s (Event.responds ids ResponseStatus.expired) h p = p
step-Pending sort k a s (Event.responds ids _) h p = ground (
  arith,
  k.keeps a (union s.needed ids),
  member-union a s.needed ids,
  member-minus a s.in_progress ids,
)

run-Pending :
    (sort : List ℕ → List ℕ) (k : IsSort sort) (a : ℕ) (s : Sync) (es : List Event)
    → AllSpare a es
    → Pending a s
    → Pending a (run sort s es)
unfolding run
run-Pending sort k a s [] h p = p
run-Pending sort k a s (e ∷ es) h p =
    run-Pending sort k a (step sort s e) es h.1 (step-Pending sort k a s e h.0 p)

-- An identifier that will be downloaded still will be after any events of which none is a
-- successful or permanently failed response to a request for it, or a replacement of the needed
-- identifiers by ones without it: no temporary error, repeated request or addition loses it.
pub identifier_kept :
    (sort : List ℕ → List ℕ) (k : IsSort sort) (a : ℕ) (s : Sync) (es : List Event)
    → AllSpare a es
    → member a (will_be_downloaded s) ≡ true
    → member a (will_be_downloaded (run sort s es)) ≡ true
unfolding Pending
identifier_kept sort k a s es h p =
    member-will_be_downloaded a (run sort s es)
    ∙ run-Pending sort k a s es h (sym (member-will_be_downloaded a s) ∙ p)

step_in_progress :
    (sort : List ℕ → List ℕ) (a : ℕ) (s : Sync) (e : Event)
    → NotAnswered a e
    → member a s.in_progress ≡ true
    → member a (step sort s e).in_progress ≡ true
unfolding step set_as_needing_download add_that_need_download respond next_request
step_in_progress sort a s (Event.sets ids) h p = p
step_in_progress sort a s (Event.adds ids) h p = ground arith
step_in_progress sort a s (Event.asks maximum) h p =
    ground (arith, member-union a s.in_progress (first maximum s.needed))
step_in_progress sort a s (Event.responds ids ResponseStatus.expired) h p = p
step_in_progress sort a s (Event.responds ids _) h p =
    ground (arith, member-minus a s.in_progress ids)

run_in_progress :
    (sort : List ℕ → List ℕ) (a : ℕ) (s : Sync) (es : List Event)
    → AllNotAnswered a es
    → member a s.in_progress ≡ true
    → member a (run sort s es).in_progress ≡ true
unfolding run
run_in_progress sort a s [] h p = p
run_in_progress sort a s (e ∷ es) h p =
    run_in_progress sort a (step sort s e) es h.1 (step_in_progress sort a s e h.0 p)

-- An identifier in progress keeps the sync from being done through any events in which every
-- response to a request for it is an expired one: an expired request is not repeated and not
-- given up, so its identifiers stay in progress.
pub expired_never_done :
    (sort : List ℕ → List ℕ) (a : ℕ) (s : Sync) (es : List Event)
    → AllNotAnswered a es
    → member a s.in_progress ≡ true
    → is_done (run sort s es) ≡ false
unfolding is_done
expired_never_done sort a s es h p =
    ground
      (arith, nonempty_if_member a (run sort s es).in_progress (run_in_progress sort a s es h p))

-- One request, if one is due, and its successful response.
abbrev pub answered : (List ℕ → List ℕ) → Option (List ℕ) × Sync → Sync
answered sort (none, s) = s
answered sort (some ids, s) = respond sort ids ResponseStatus.success s

pub rounds : (List ℕ → List ℕ) → ℕ → ℕ → Sync → Sync
rounds sort maximum zero s = s
rounds sort maximum (suc n) s = rounds sort maximum n (answered sort (next_request maximum s))

minus-union_nil : (ids : List ℕ) → minus (union [] ids) ids ≡ []
unfolding member
minus-union_nil ids =
    empty_if_no_member (minus (union [] ids) ids)
      (λ a. ground (arith, member-minus a (union [] ids) ids, member-union a [] ids))

shorter :
    (maximum : ℕ) (x : ℕ) (xs : List ℕ)
    → 0 < maximum
    → length (minus (x ∷ xs) (first maximum (x ∷ xs))) ≤ length xs
unfolding minus first member
shorter zero x xs h = absurd (omega arith)
shorter (suc n) x xs h = ground (arith, ==_refl x, length-minus xs (x ∷ first n xs))

round_shorter :
    (sort : List ℕ → List ℕ) (maximum n : ℕ) (s : Sync) (xs : List ℕ)
    → 0 < maximum
    → s.needed ≡ xs
    → s.in_progress ≡ []
    → length xs ≤ suc n
    → let after = answered sort (next_request maximum s) in
      (after.in_progress ≡ []) × (length after.needed ≤ n)
unfolding next_request respond
round_shorter sort maximum n s [] h e p b = ground arith
round_shorter sort maximum n s (x ∷ xs) h e p b =
    ground (arith, minus-union_nil (first maximum (x ∷ xs)), shorter maximum x xs h)

nil_if_short : (xs : List ℕ) → length xs ≤ 0 → is_empty xs ≡ true
nil_if_short [] b = refl
nil_if_short (x ∷ xs) b = absurd (omega arith)

done_if_nil : (s : Sync) → length s.needed ≤ 0 → s.in_progress ≡ [] → is_done s ≡ true
unfolding is_done
done_if_nil s b p = ground (arith, nil_if_short s.needed b)

-- With a positive limit per request and nothing in progress, as many successful rounds as there
-- are needed identifiers, or more, finish the download.
pub rounds_finish :
    (sort : List ℕ → List ℕ) (maximum n : ℕ) (s : Sync)
    → 0 < maximum
    → s.in_progress ≡ []
    → length s.needed ≤ n
    → is_done (rounds sort maximum n s) ≡ true
unfolding rounds
rounds_finish sort maximum zero s h p b = done_if_nil s b p
rounds_finish sort maximum (suc n) s h p b =
    let r = round_shorter sort maximum n s s.needed h refl p b in
    rounds_finish sort maximum n (answered sort (next_request maximum s)) h r.0 r.1
