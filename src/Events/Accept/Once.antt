-- ===== src/Events/Accept/Once.antt =====
-- An update is accepted once: packages/domain/src/channel/accept-telegram-event.ts and
-- packages/adapters/src/postgres/telegram-ingress-store.ts.
use xpens_go.Prelude.{
  Bool, Bool-cases, List, Option, String, [], ap, arith, count, eq_iff, false, inl, inr, ltb, refl,
  str_eq, str_eq_refl, subst, sym, true, ℕ, ◌∙◌, ◌∷◌, ◌≡◌,
}
use xpens_go.Effect.{Result, err, ok}
use xpens_go.Events.Accept.{
  AcceptError, IngressIds, VerifiedUpdate, accept_telegram_event, are_taken, event_accepted,
  has_update, minimize_content, new_event, persist, persisted_event, persisted_with,
  update_duplicate,
}
use xpens_go.Events.Calls.{StoreCall, call}
use xpens_go.Events.Rows.{EventPayload, EventTables, InboundEvent, event_id}
use xpens_go.Events.Steps.{
  EventStep, admits, allows, completed, gives_up, rejects, resumes, stays, suppresses,
}
use xpens_go.Events.Steps.Calls.{call-EventStep}
use xpens_go.Events.Store.Claim.{ProcessingPolicy, start_processing, suppress_abuse}
use xpens_go.Events.Store.Complete.{process_event, release_event}
use xpens_go.Events.Store.Limit.{allow_user, suppress_user}
use xpens_go.Events.Types.{EventContent}
use xpens_go.Outbox.Types.{CorrelationId}
use xpens_go.Table.Counts.{count-update_same}

-- What changes the tables: an acceptance, or a call of the store of event processing.
pub data Arrival : Type 0 where
  accepts : IngressIds → CorrelationId → VerifiedUpdate → Arrival
  processes : StoreCall → Arrival

-- How many events an update has.
abbrev is_of_update : String → InboundEvent → Bool
is_of_update update e = str_eq e.external_event_id update

abbrev pub events_of : String → EventTables → ℕ
events_of update t = count (is_of_update update) t.events

step-events_of :
    {used : Option ProcessingPolicy} {t t' : EventTables} (update : String)
    → EventStep used t t'
    → events_of update t' ≡ events_of update t
step-events_of update stays = refl
step-events_of {t = t} k (rejects now policy e p row payload unsettled unchecked beyond) =
    count-update_same event_id (is_of_update k) e.id (suppress_abuse now) t.events (λ r. refl)
step-events_of {t = t} k
      (admits drawn now policy e p with_policy row payload unsettled unchecked within) =
    count-update_same event_id (is_of_update k) e.id (start_processing drawn now policy) t.events
      (λ r. refl)
step-events_of {t = t} k (resumes drawn now policy e row unsettled before) =
    count-update_same event_id (is_of_update k) e.id (start_processing drawn now policy) t.events
      (λ r. refl)
step-events_of {t = t} k (completed now ids correlation completion e p row busy fresh) =
    count-update_same event_id (is_of_update k) e.id (process_event now completion) t.events
      (λ r. refl)
step-events_of {t = t} k (allows now user e row busy undecided) =
    count-update_same event_id (is_of_update k) e.id (allow_user now) t.events (λ r. refl)
step-events_of {t = t} k (suppresses now user e row busy undecided) =
    count-update_same event_id (is_of_update k) e.id (suppress_user now) t.events (λ r. refl)
step-events_of {t = t} k (gives_up e row busy) =
    count-update_same event_id (is_of_update k) e.id release_event t.events (λ r. refl)

has_update-count :
    (update : String) (es : List InboundEvent)
    → has_update update es ≡ ltb 0 (count (is_of_update update) es)
unfolding has_update
has_update-count update [] = refl
has_update-count update (e ∷ es) = ground (arith, has_update-count update es)

-- An update that has its event gets no other.
persist-events_of :
    (ids : IngressIds) (correlation : CorrelationId) (update known : String) (p : EventPayload)
    (t : EventTables)
    → events_of known t ≡ 1
    → events_of known (persist ids correlation update p t).1 ≡ 1
unfolding persist
persist-events_of ids correlation update known p t h =
    elim (Bool-cases (has_update update t.events)) [
      | inl again ↦ rw (again, persist) h
      | inr new ↦ elim (Bool-cases (are_taken ids t)) [
        | inl taken ↦ rw (new, taken, persist) h
        | inr fresh ↦ elim (Bool-cases (str_eq update known)) [
          | inl same ↦
              let own : update ≡ known = (eq_iff update known).0 same in
              let absent : has_update known t.events ≡ false =
                subst (λ x. has_update x t.events ≡ false) own new in
              absurd (ground (arith, has_update-count known t.events, absent, h))
          | inr other ↦ rw (new, fresh, persist) (rw other h)
        ]
      ]
    ]

accept-events_of :
    (ids : IngressIds) (correlation : CorrelationId) (u : VerifiedUpdate) (known : String)
    (content : Result AcceptError EventContent) (t : EventTables)
    → events_of known t ≡ 1
    → events_of known (persisted_with ids correlation u content t).1 ≡ 1
accept-events_of ids correlation u known (err e) t h = h
accept-events_of ids correlation u known (ok content) t h =
    persist-events_of ids correlation u.update_id known (persisted_event u content) t h

-- The first acceptance inserts the event.
persist-accepted :
    (ids : IngressIds) (correlation : CorrelationId) (update : String) (p : EventPayload)
    (t t' : EventTables) (event job : ℕ)
    → persist ids correlation update p t ≡ (ok (event_accepted event job), t')
    → events_of update t' ≡ 1
unfolding persist
persist-accepted ids correlation update p t t' event job h =
    elim (Bool-cases (has_update update t.events)) [
      | inl again ↦ absurd (ground (arith, h, again))
      | inr new ↦ elim (Bool-cases (are_taken ids t)) [
        | inl taken ↦ absurd (ground (arith, h, new, taken))
        | inr fresh ↦
            let done : persist ids correlation update p t ≡ (
              ok (event_accepted ids.event ids.job),
              record t {
                events = new_event ids.event update correlation p ∷ t.events;
                event_jobs = record { id = ids.job; inbound_event_id = ids.event } ∷ t.event_jobs;
              },
            ) =
              rw (new, fresh, persist) refl in
            let after : t'.events ≡ new_event ids.event update correlation p ∷ t.events =
              ap (λ r. r.1.events) (sym h ∙ done) in
            rw after (ground (arith, str_eq_refl update, has_update-count update t.events, new))
      ]
    ]

persist-again :
    (ids : IngressIds) (correlation : CorrelationId) (update : String) (p : EventPayload)
    (t : EventTables)
    → events_of update t ≡ 1
    → persist ids correlation update p t ≡ (ok update_duplicate, t)
unfolding persist
persist-again ids correlation update p t h =
    let known : has_update update t.events ≡ true =
      ground (arith, has_update-count update t.events, h) in
    rw (known, persist) refl

module _ (digest : String → Result AcceptError String) where
  unfoldable pub arrive : Arrival → EventTables → EventTables
  arrive (accepts ids correlation u) t = (accept_telegram_event digest ids correlation u t).1
  arrive (processes c) t = call c t

  unfoldable pub arrivals : List Arrival → EventTables → EventTables
  arrivals [] t = t
  arrivals (a ∷ as') t = arrivals as' (arrive a t)

  arrivals-events_of :
      (known : String) (as' : List Arrival) (t : EventTables)
      → events_of known t ≡ 1
      → events_of known (arrivals as' t) ≡ 1
  unfolding arrivals arrive accept_telegram_event
  arrivals-events_of known [] t h = h
  arrivals-events_of known (accepts ids correlation u ∷ as') t h =
      arrivals-events_of known as' (accept_telegram_event digest ids correlation u t).1
        (accept-events_of ids correlation u known (minimize_content digest u.content) t h)
  arrivals-events_of known (processes c ∷ as') t h =
      arrivals-events_of known as' (call c t) (step-events_of known (call-EventStep c t) ∙ h)

  accept-again :
      (ids ids' : IngressIds) (correlation correlation' : CorrelationId) (u : VerifiedUpdate)
      (content : Result AcceptError EventContent) (event job : ℕ) (as' : List Arrival)
      (t t' : EventTables)
      → persisted_with ids correlation u content t ≡ (ok (event_accepted event job), t')
      → (persisted_with ids' correlation' u content (arrivals as' t')
          ≡ (ok update_duplicate, arrivals as' t'))
        × (events_of u.update_id (arrivals as' t') ≡ 1)
  accept-again ids ids' correlation correlation' u (err e) event job as' t t' h =
      absurd (ground (arith, h))
  accept-again ids ids' correlation correlation' u (ok content) event job as' t t' h =
      let one = arrivals-events_of u.update_id as' t' (
        persist-accepted ids correlation u.update_id (persisted_event u content) t t' event job
          h) in
      (
        persist-again ids' correlation' u.update_id (persisted_event u content) (arrivals as' t')
            one,
        one,
      )

  -- Once an update is accepted, however other updates are accepted and events are processed after it,
  -- it has exactly one event, and accepting it again, with any identifiers, answers that it is a
  -- duplicate and changes nothing.
  pub accept_repeated :
      (ids ids' : IngressIds) (correlation correlation' : CorrelationId) (u : VerifiedUpdate)
      (event job : ℕ) (as' : List Arrival) (t t' : EventTables)
      → accept_telegram_event digest ids correlation u t ≡ (ok (event_accepted event job), t')
      → (accept_telegram_event digest ids' correlation' u (arrivals as' t')
          ≡ (ok update_duplicate, arrivals as' t'))
        × (events_of u.update_id (arrivals as' t') ≡ 1)
  unfolding accept_telegram_event
  accept_repeated ids ids' correlation correlation' u event job as' t t' h =
      accept-again ids ids' correlation correlation' u (minimize_content digest u.content) event job
        as' t t' h
