-- ===== src/Events/Steps/Admitted.antt =====
-- The limits of a minute hold over every sequence of calls: packages/adapters/src/postgres/
-- telegram-event-processing-store.ts.
use xpens_go.Prelude.{
  All, Bool-cases, List, Option, Option-cases, [], arith, false, inl, inr, none, refl, some, subst,
  true, ℕ, ◌∷◌, ◌≡◌, ◌≤◌,
}
use xpens_go.Events.Calls.{StoreCall, call, run_calls}
use xpens_go.Events.Checks.{MeetsEventChecks, RowChecks}
use xpens_go.Events.Rows.{AbuseScope, EventPayload, EventTables, InboundEvent, event_id, user_scope}
use xpens_go.Events.Steps.{
  EventStep, IsRow, admits, allows, completed, count_check, count_user, gives_up, rejects, resumes,
  rewrite, stays, suppresses,
}
use xpens_go.Events.Steps.Calls.{call-EventStep, policy_of}
use xpens_go.Events.Steps.Consistent.{call-MeetsEventChecks}
use xpens_go.Events.Steps.Limits.{
  IsWithinLimit, admitted, is_admitted, is_counted_in, scope_limit, window_count-counted_windows,
  within-window_count,
}
use xpens_go.Events.Store.Claim.{
  ProcessingPolicy, is_within_limits, start_processing, suppress_abuse,
}
use xpens_go.Events.Store.Complete.{process_event, release_event}
use xpens_go.Events.Store.Limit.{allow_user, suppress_user}
use xpens_go.Events.Windows.{minute_of, window_count, window_count-count_event}
use xpens_go.Table.{HasUniqueKeys, update}
use xpens_go.Table.Counts.{count-update}
use xpens_go.Table.Laws.{select-All}

module _ (scope : AbuseScope) (minute maximum : ℕ) where
  -- A change that admits nobody, whether or not a window counts more.
  unadmitted :
      (t t' : EventTables) (e : InboundEvent) (f : InboundEvent → InboundEvent)
      → t'.events ≡ update event_id e.id f t.events
      → IsRow t e
      → HasUniqueKeys event_id t.events
      → is_admitted scope minute (f e) ≡ is_admitted scope minute e
      → window_count scope minute t.windows ≤ window_count scope minute t'.windows
      → IsWithinLimit scope minute maximum t
      → IsWithinLimit scope minute maximum t'
  unadmitted t t' e f events row unique same more h =
      let changed = count-update event_id (is_admitted scope minute) e.id f t.events e unique row in
      let kept : admitted scope minute t' ≡ admitted scope minute t =
        rw events (ground (arith, changed, same)) in
      record { counted = omega (arith, h.counted); limited = omega (arith, h.limited) }

  -- An event that was never checked has no time of a check.
  unchecked-at :
      (e : InboundEvent) → RowChecks e → e.abuse_allowed ≡ none → e.abuse_checked_at ≡ none
  unchecked-at e c unchecked = elim (Option-cases e.abuse_checked_at) [
    | inl absent ↦ absent
    | inr (at_time, present) ↦ absurd (ground (arith, c.abuse_complete, present, unchecked))
  ]

  admits-IsWithinLimit :
      (drawn now : ℕ) (policy : ProcessingPolicy) (e : InboundEvent) (p : EventPayload)
      (t : EventTables)
      → scope_limit scope policy ≤ maximum
      → IsRow t e
      → e.normalized_payload ≡ some p
      → e.abuse_allowed ≡ none
      → is_within_limits now policy p.external_account_id t.windows ≡ true
      → MeetsEventChecks t
      → IsWithinLimit scope minute maximum t
      → IsWithinLimit scope minute maximum
          (rewrite e (start_processing drawn now policy) (count_check now p t))
  admits-IsWithinLimit drawn now policy e p t bound row payload unchecked within c h =
      let start = start_processing drawn now policy in
      let checks = select-All event_id RowChecks e.id t.events e c.rows row in
      let never = unchecked-at e checks unchecked in
      let changed =
        count-update event_id (is_admitted scope minute) e.id start t.events e c.unique row in
      let before : is_admitted scope minute e ≡ false = rw (payload, unchecked) (ground arith) in
      let after : is_admitted scope minute (start e) ≡ is_counted_in scope minute now p =
        rw (payload, unchecked, never) (ground arith) in
      let windows = window_count-counted_windows scope minute now p t.windows in
      elim (Bool-cases (is_counted_in scope minute now p)) [
        | inl counted ↦
            let room = within-window_count scope minute now policy p t.windows within counted in
            record {
              counted = ground (arith, changed, before, after, windows, counted, h.counted);
              limited = ground (arith, changed, before, after, counted, room, bound, h.counted);
            }
        | inr elsewhere ↦ record {
          counted = ground (arith, changed, before, after, windows, elsewhere, h.counted);
          limited = ground (arith, changed, before, after, elsewhere, h.limited);
        }
      ]

  resumed-same :
      (drawn now : ℕ) (policy : ProcessingPolicy) (e : InboundEvent)
      → RowChecks e
      → e.abuse_allowed ≡ some true
      → is_admitted scope minute (start_processing drawn now policy e) ≡ is_admitted scope minute e
  resumed-same drawn now policy e c admitted_before = elim (Option-cases e.abuse_checked_at) [
    | inl absent ↦ absurd (ground (arith, c.abuse_complete, absent, admitted_before))
    | inr (at_time, present) ↦ rw (admitted_before, present) refl
  ]

  rejected-same :
      (now : ℕ) (e : InboundEvent)
      → e.abuse_allowed ≡ none
      → is_admitted scope minute (suppress_abuse now e) ≡ is_admitted scope minute e
  rejected-same now e unchecked = rw unchecked (ground arith)

  counted_more :
      (now : ℕ) (p : EventPayload) (t : EventTables)
      → window_count scope minute t.windows
        ≤ window_count scope minute (count_check now p t).windows
  counted_more now p t = ground (arith, window_count-counted_windows scope minute now p t.windows)

  user_counted_more :
      (now user : ℕ) (t : EventTables)
      → window_count scope minute t.windows
        ≤ window_count scope minute (count_user now user t).windows
  user_counted_more now user t =
      ground
        (arith, window_count-count_event scope (user_scope user) minute (minute_of now) t.windows)

  -- The policy of a claim allows no more than `maximum` events.
  abbrev pub KeepsLimit : Option ProcessingPolicy → Type 0
  KeepsLimit none = Unit
  KeepsLimit (some policy) = scope_limit scope policy ≤ maximum

  step-IsWithinLimit :
      {used : Option ProcessingPolicy} {t t' : EventTables}
      → EventStep used t t'
      → KeepsLimit used
      → MeetsEventChecks t
      → IsWithinLimit scope minute maximum t
      → IsWithinLimit scope minute maximum t'
  step-IsWithinLimit stays b c h = h
  step-IsWithinLimit {t = t} {t' = t'}
        (rejects now policy e p row payload unsettled unchecked beyond) b c h =
      unadmitted t t' e (suppress_abuse now) refl row c.unique (rejected-same now e unchecked)
        (counted_more now p t) h
  step-IsWithinLimit {t = t}
        (admits drawn now policy e p with_policy row payload unsettled unchecked within) b c h =
      admits-IsWithinLimit drawn now policy e p t (subst KeepsLimit with_policy b) row payload
        unchecked within c h
  step-IsWithinLimit {t = t} {t' = t'} (resumes drawn now policy e row unsettled before) b c h =
      unadmitted t t' e (start_processing drawn now policy) refl row c.unique
        (resumed-same drawn now policy e (select-All event_id RowChecks e.id t.events e c.rows row)
          before)
        (omega arith) h
  step-IsWithinLimit {t = t} {t' = t'} (completed now ids correlation completion e p row busy fresh)
        b c h =
      unadmitted t t' e (process_event now completion) refl row c.unique refl (omega arith) h
  step-IsWithinLimit {t = t} {t' = t'} (allows now user e row busy undecided) b c h =
      unadmitted t t' e (allow_user now) refl row c.unique refl (user_counted_more now user t) h
  step-IsWithinLimit {t = t} {t' = t'} (suppresses now user e row busy undecided) b c h =
      unadmitted t t' e (suppress_user now) refl row c.unique refl (user_counted_more now user t) h
  step-IsWithinLimit {t = t} {t' = t'} (gives_up e row busy) b c h =
      unadmitted t t' e release_event refl row c.unique refl (omega arith) h

-- Over every sequence of claims, completions, limit checks and releases in which no claim's policy
-- lets more than `maximum` events of a scope pass in a minute, at most `maximum` events of that
-- scope are admitted in each minute, and each of them is counted in its window, however often a
-- claim is retried, given that the tables at the start meet the CHECKs and these two bounds. The
-- scopes that a claim counts are the whole system and the external account; a user's is counted
-- later, by the limit check, and nothing is said of it.
pub run_calls-IsWithinLimit :
    (scope : AbuseScope) (minute maximum : ℕ) (cs : List StoreCall) (t : EventTables)
    → All (λ c. KeepsLimit scope minute maximum (policy_of c)) cs
    → MeetsEventChecks t
    → IsWithinLimit scope minute maximum t
    → IsWithinLimit scope minute maximum (run_calls cs t)
unfolding run_calls
run_calls-IsWithinLimit scope minute maximum [] t b c h = h
run_calls-IsWithinLimit scope minute maximum (x ∷ xs) t (b, bs) c h =
    run_calls-IsWithinLimit scope minute maximum xs (call x t) bs (call-MeetsEventChecks x t c)
      (step-IsWithinLimit scope minute maximum (call-EventStep x t) b c h)
