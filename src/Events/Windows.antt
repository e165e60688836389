-- ===== src/Events/Windows.antt =====
-- The counters of `channel_abuse_windows`: packages/adapters/src/postgres/
-- telegram-event-processing-store.ts.
use xpens_go.Prelude.{
  ==_iff, Bool, Bool-cases, List, [], ap, arith, eq_iff, false, if◌then◌else◌, inl, inr, refl,
  str_eq, suc, true, ℕ, ◌&&◌, ◌*◌, ◌+◌, ◌/◌, ◌==◌, ◌∷◌, ◌≡◌,
}
use xpens_go.Events.Rows.{AbuseScope, AbuseWindow, identity_scope, system_scope, user_scope}

-- `date_trunc('minute', CURRENT_TIMESTAMP)`, of a time in milliseconds.
abbrev pub minute_of : ℕ → ℕ
minute_of now = now / 60000 * 60000

abbrev pub scope_eq : AbuseScope → AbuseScope → Bool
scope_eq system_scope system_scope = true
scope_eq (identity_scope a) (identity_scope b) = str_eq a b
scope_eq (user_scope a) (user_scope b) = a == b
scope_eq _ _ = false

-- The primary key of `channel_abuse_windows`, for the one channel.
abbrev pub is_window : AbuseScope → ℕ → AbuseWindow → Bool
is_window scope minute w = scope_eq scope w.scope && w.window_started_at == minute

abbrev pub counted_first : AbuseScope → ℕ → AbuseWindow
counted_first scope minute = record { scope = scope; window_started_at = minute; event_count = 1 }

abbrev pub counted_again : AbuseWindow → AbuseWindow
counted_again w = record w { event_count = w.event_count + 1 }

-- INSERT … ON CONFLICT DO UPDATE … RETURNING event_count: the count, and the table.
unfoldable pub count_event : AbuseScope → ℕ → List AbuseWindow → ℕ × List AbuseWindow
count_event scope minute [] = (1, counted_first scope minute ∷ [])
count_event scope minute (w ∷ ws) =
    let rest = count_event scope minute ws in
    if is_window scope minute w
    then (w.event_count + 1, counted_again w ∷ ws)
    else (rest.0, w ∷ rest.1)

-- How many events a window has counted.
unfoldable pub window_count : AbuseScope → ℕ → List AbuseWindow → ℕ
window_count scope minute [] = 0
window_count scope minute (w ∷ ws) =
    let rest = window_count scope minute ws in
    if is_window scope minute w then w.event_count else rest

pub scope_eq_iff : (a b : AbuseScope) → scope_eq a b ≡ true → a ≡ b
scope_eq_iff system_scope system_scope h = refl
scope_eq_iff (identity_scope a) (identity_scope b) h = ap identity_scope ((eq_iff a b).0 h)
scope_eq_iff (user_scope a) (user_scope b) h = ap user_scope ((==_iff a b).0 h)
scope_eq_iff system_scope (identity_scope b) h = cc
scope_eq_iff system_scope (user_scope b) h = cc
scope_eq_iff (identity_scope a) system_scope h = cc
scope_eq_iff (identity_scope a) (user_scope b) h = cc
scope_eq_iff (user_scope a) system_scope h = cc
scope_eq_iff (user_scope a) (identity_scope b) h = cc

-- Whether a window is the one of a scope and a minute.
abbrev pub is_same_window : AbuseScope → ℕ → AbuseScope → ℕ → Bool
is_same_window scope minute other_scope other_minute =
    is_window scope minute (counted_first other_scope other_minute)

is_window_same :
    (scope other : AbuseScope) (minute other_minute : ℕ) (w : AbuseWindow)
    → is_window other other_minute w ≡ true
    → is_window scope minute w ≡ is_same_window scope minute other other_minute
is_window_same scope other minute other_minute w h =
    let same_scope : other ≡ w.scope = scope_eq_iff other w.scope (ground arith) in
    let same_minute : other_minute ≡ w.window_started_at = ground arith in
    rw (same_scope, same_minute) refl

is_window-is_same :
    (scope other : AbuseScope) (minute other_minute : ℕ) (w : AbuseWindow)
    → is_same_window scope minute other other_minute ≡ true
    → is_window scope minute w ≡ is_window other other_minute w
is_window-is_same scope other minute other_minute w h =
    let same_scope : scope ≡ other = scope_eq_iff scope other (ground arith) in
    let same_minute : minute ≡ other_minute = ground arith in rw (same_scope, same_minute) refl

-- The answer is the new count of the window.
pub count_event-window_count :
    (scope : AbuseScope) (minute : ℕ) (ws : List AbuseWindow)
    → (count_event scope minute ws).0 ≡ suc (window_count scope minute ws)
unfolding count_event window_count
count_event-window_count scope minute [] = refl
count_event-window_count scope minute (w ∷ ws) =
    ground (arith, count_event-window_count scope minute ws)

-- An event is counted in its own window, and in no other.
pub window_count-count_event :
    (scope other : AbuseScope) (minute other_minute : ℕ) (ws : List AbuseWindow)
    → window_count scope minute (count_event other other_minute ws).1
      ≡ (if is_same_window scope minute other other_minute then 1 else 0)
        + window_count scope minute ws
unfolding count_event window_count
window_count-count_event scope other minute other_minute [] = ground arith
window_count-count_event scope other minute other_minute (w ∷ ws) =
    elim (Bool-cases (is_window other other_minute w)) [
      | inl own ↦ rw own (ground (arith, is_window_same scope other minute other_minute w own))
      | inr not_own ↦
          rw not_own (elim (Bool-cases (is_same_window scope minute other other_minute)) [
            | inl same ↦ ground (
              arith,
              window_count-count_event scope other minute other_minute ws,
              is_window-is_same scope other minute other_minute w same,
            )
            | inr different ↦
                ground (arith, window_count-count_event scope other minute other_minute ws)
          ])
    ]
