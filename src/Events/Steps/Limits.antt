-- ===== src/Events/Steps/Limits.antt =====
-- How many events of one minute are admitted: packages/adapters/src/postgres/
-- telegram-event-processing-store.ts.
use xpens_go.Prelude.{
  ==_iff, ==_sym, Bool, List, Option, arith, count, eq_iff, false, if◌then◌else◌, none, some,
  str_eq, subst, suc, sym, true, ℕ, ◌&&◌, ◌+◌, ◌==◌, ◌≡◌, ◌≤◌,
}
use xpens_go.Events.Rows.{
  AbuseScope, AbuseWindow, EventPayload, EventTables, InboundEvent, identity_scope, system_scope,
  user_scope,
}
use xpens_go.Events.Store.Claim.{ProcessingPolicy, counted_windows, is_within_limits}
use xpens_go.Events.Windows.{
  count_event, count_event-window_count, is_same_window, minute_of, window_count,
  window_count-count_event,
}

-- Whether a scope covers an event. The user of an event is not on its row when it is admitted.
abbrev pub covers_payload : AbuseScope → EventPayload → Bool
covers_payload system_scope p = true
covers_payload (identity_scope account) p = str_eq account p.external_account_id
covers_payload (user_scope user) p = false

abbrev pub covers : AbuseScope → Option EventPayload → Bool
covers scope none = false
covers scope (some p) = covers_payload scope p

abbrev pub was_checked_in : ℕ → Option ℕ → Bool
was_checked_in minute none = false
was_checked_in minute (some at_time) = minute_of at_time == minute

abbrev pub is_true : Option Bool → Bool
is_true (some true) = true
is_true _ = false

-- An event that the limits of a scope let pass in a minute.
abbrev pub is_admitted : AbuseScope → ℕ → InboundEvent → Bool
is_admitted scope minute e =
    covers scope e.normalized_payload
    && is_true e.abuse_allowed
    && was_checked_in minute e.abuse_checked_at

abbrev pub scope_limit : AbuseScope → ProcessingPolicy → ℕ
scope_limit system_scope policy = policy.system_per_minute
scope_limit (identity_scope account) policy = policy.per_identity_per_minute
scope_limit (user_scope user) policy = 0

abbrev pub admitted : AbuseScope → ℕ → EventTables → ℕ
admitted scope minute t = count (is_admitted scope minute) t.events

-- Every admitted event is counted in its window, and no more than `maximum` are admitted.
pub record IsWithinLimit (scope : AbuseScope) (minute maximum : ℕ) (t : EventTables) : Type 0 where
  pub counted : admitted scope minute t ≤ window_count scope minute t.windows
  pub limited : admitted scope minute t ≤ maximum

-- The windows that an event is counted in.
abbrev pub is_counted_in : AbuseScope → ℕ → ℕ → EventPayload → Bool
is_counted_in scope minute now p = covers_payload scope p && minute_of now == minute

pub window_count-counted_windows :
    (scope : AbuseScope) (minute now : ℕ) (p : EventPayload) (ws : List AbuseWindow)
    → window_count scope minute (counted_windows now p.external_account_id ws)
      ≡ (if is_counted_in scope minute now p then 1 else 0) + window_count scope minute ws
window_count-counted_windows scope minute now p ws =
    let counted = (count_event system_scope (minute_of now) ws).1 in
    let first = window_count-count_event scope system_scope minute (minute_of now) ws in
    let second =
      window_count-count_event scope (identity_scope p.external_account_id) minute (minute_of now)
        counted in
    elim scope
        as (λ x.
          window_count x minute counted
            ≡ (if is_same_window x minute system_scope (minute_of now) then 1 else 0)
              + window_count x minute ws
          → window_count x minute (counted_windows now p.external_account_id ws)
            ≡ (if is_same_window x minute (identity_scope p.external_account_id) (minute_of now)
                then 1
                else 0)
              + window_count x minute counted
          → window_count x minute (counted_windows now p.external_account_id ws)
            ≡ (if is_counted_in x minute now p then 1 else 0) + window_count x minute ws) [
              | system_scope ↦ λ a b. ground (arith, a, b, ==_sym minute (minute_of now))
              | identity_scope account ↦ λ a b. ground (arith, a, b, ==_sym minute (minute_of now))
              | user_scope user ↦ λ a b. ground (arith, a, b)
            ]
      first second

-- The counts that an admitted event was compared with.
pub within-window_count :
    (scope : AbuseScope) (minute now : ℕ) (policy : ProcessingPolicy) (p : EventPayload)
    (ws : List AbuseWindow)
    → is_within_limits now policy p.external_account_id ws ≡ true
    → is_counted_in scope minute now p ≡ true
    → suc (window_count scope minute ws) ≤ scope_limit scope policy
unfolding is_within_limits
within-window_count system_scope minute now policy p ws within counted =
    let this_minute : minute_of now ≡ minute = (==_iff (minute_of now) minute).0 (ground arith) in
    subst (λ m. suc (window_count system_scope m ws) ≤ policy.system_per_minute) this_minute
      (ground (arith, count_event-window_count system_scope (minute_of now) ws))
within-window_count (identity_scope account) minute now policy p ws within counted =
    let this_minute : minute_of now ≡ minute = (==_iff (minute_of now) minute).0 (ground arith) in
    let this_account : account ≡ p.external_account_id =
      (eq_iff account p.external_account_id).0 (ground arith) in
    let before = (count_event system_scope (minute_of now) ws).1 in
    rw (this_account, sym this_minute)
      (ground (
        arith,
        count_event-window_count (identity_scope p.external_account_id) (minute_of now) before,
        window_count-count_event (identity_scope p.external_account_id) system_scope (minute_of now)
            (minute_of now) ws,
      ))
within-window_count (user_scope user) minute now policy p ws within counted = cc
