-- ===== src/Events/Steps/Calls.antt =====
-- Every call of the store takes one of the steps: packages/adapters/src/postgres/
-- telegram-event-processing-store.ts.
use xpens_go.Prelude.{
  Bool-cases, Option, Option-cases, arith, false, inl, inr, leb, none, refl, some, subst, sym, true,
  ℕ, ◌&&◌, ◌≡◌,
}
use xpens_go.Delivery.Store.Claim.{is_held}
use xpens_go.Events.Calls.{StoreCall, call, claims, completes, limits, releases}
use xpens_go.Events.Rows.{
  EventPayload, EventTables, InboundEvent, event_id, event_job_id, user_scope,
}
use xpens_go.Events.Steps.{
  EventStep, IsRow, admits, allows, completed, gives_up, rejects, resumes, stays, suppresses,
}
use xpens_go.Events.Steps.Limits.{admitted}
use xpens_go.Events.Store.Claim.{
  ProcessingPolicy, claim, claim_event, event_of, is_in_process, is_settled, is_within_limits,
}
use xpens_go.Events.Store.Complete.{
  DrawnIds, complete, complete_event, is_refused, new_commands, owned_event, owns_event, release,
}
use xpens_go.Events.Store.Limit.{enforce_user_limit, limit_event}
use xpens_go.Events.Types.{EventCompletion, InboundEventId, ProcessingClaimId}
use xpens_go.Events.Windows.{count_event, minute_of}
use xpens_go.Outbox.Types.{OutboxMessageId}
use xpens_go.Table.{select}
use xpens_go.Table.Laws.{key-select}

pub event_of-select :
    (t : EventTables) (outbox : OutboxMessageId) (e : InboundEvent) (p : EventPayload)
    → event_of t outbox ≡ some (e, p)
    → IsRow t e × (e.normalized_payload ≡ some p)
unfolding event_of
event_of-select t outbox e p h = elim (Option-cases (select event_job_id outbox t.event_jobs)) [
  | inl absent ↦ absurd (ground (arith, absent))
  | inr (job, found) ↦ elim (Option-cases (select event_id job.inbound_event_id t.events)) [
    | inl absent ↦ absurd (ground (arith, found, absent))
    | inr (e', row) ↦ elim (Option-cases e'.normalized_payload) [
      | inl absent ↦ absurd (ground (arith, found, row, absent))
      | inr (p', payload) ↦
          let same : e' ≡ e = ground (arith, found, row, payload) in
          let same_payload : p' ≡ p = ground (arith, found, row, payload) in
          let own = key-select event_id job.inbound_event_id t.events e' row in
          (
            subst (λ x. IsRow t x) same
                (subst (λ k. select event_id k t.events ≡ some e') (sym own) row),
            subst (λ x. x.normalized_payload ≡ some p) same
                (subst (λ x. e'.normalized_payload ≡ some x) same_payload payload),
          )
    ]
  ]
]

pub owned_event-select :
    (held : ProcessingClaimId) (k : InboundEventId) (t : EventTables) (e : InboundEvent)
    → owned_event held k t ≡ some e
    → IsRow t e × ((e.id ≡ k) × (owns_event held e ≡ true))
unfolding owned_event
owned_event-select held k t e h = elim (Option-cases (select event_id k t.events)) [
  | inl absent ↦ absurd (ground (arith, absent))
  | inr (e', row) ↦ elim (Bool-cases (owns_event held e')) [
    | inr other ↦ absurd (ground (arith, row, other))
    | inl owned ↦
        let same : e' ≡ e = ground (arith, row, owned) in
        let own = key-select event_id k t.events e' row in
        subst (λ x. IsRow t x × ((x.id ≡ k) × (owns_event held x ≡ true))) same
          (subst (λ x. select event_id x t.events ≡ some e') (sym own) row, (own, owned))
  ]
]

claim_event-EventStep :
    (drawn clock now : ℕ) (policy : ProcessingPolicy) (e : InboundEvent) (p : EventPayload)
    (t : EventTables)
    → IsRow t e
    → e.normalized_payload ≡ some p
    → EventStep (some policy) t (claim_event drawn clock now policy e p t).1
unfolding claim_event
claim_event-EventStep drawn clock now policy e p t row payload =
    elim (Bool-cases (is_settled e.processing_status)) [
      | inl settled ↦ rw (settled, claim_event) stays
      | inr unsettled ↦
          elim (Bool-cases
            (is_in_process e.processing_status && is_held e.processing_claimed_until clock)) [
              | inl held ↦ rw (unsettled, held, claim_event) stays
              | inr free ↦ elim (Option-cases e.abuse_allowed) [
                | inl unchecked ↦
                    elim (Bool-cases
                      (is_within_limits now policy p.external_account_id t.windows)) [
                        | inl within ↦
                            rw (unsettled, free, unchecked, within, claim_event)
                              (admits drawn now policy e p refl row payload unsettled unchecked
                                within)
                        | inr beyond ↦
                            rw (unsettled, free, unchecked, beyond, claim_event)
                              (rejects now policy e p row payload unsettled unchecked beyond)
                      ]
                | inr (true, admitted) ↦
                    rw (unsettled, free, admitted, claim_event)
                      (resumes drawn now policy e row unsettled admitted)
                | inr (false, turned_down) ↦ rw (unsettled, free, turned_down, claim_event) stays
              ]
            ]
    ]

claim-EventStep :
    (drawn clock now : ℕ) (policy : ProcessingPolicy) (outbox : OutboxMessageId) (t : EventTables)
    → EventStep (some policy) t (claim drawn clock now policy outbox t).1
unfolding claim
claim-EventStep drawn clock now policy outbox t = elim (Option-cases (event_of t outbox)) [
  | inl missing ↦ rw (missing, claim) stays
  | inr ((e, p), found) ↦
      let (row, payload) = event_of-select t outbox e p found in
      rw (found, claim) (claim_event-EventStep drawn clock now policy e p t row payload)
]

complete-EventStep :
    (now : ℕ) (ids : DrawnIds) (correlation held k : ℕ) (completion : EventCompletion)
    (t : EventTables)
    → EventStep none t (complete now ids correlation held k completion t).1
unfolding complete complete_event
complete-EventStep now ids correlation held k completion t =
    elim (Option-cases (owned_event held k t)) [
      | inl stale ↦ rw (stale, complete) stays
      | inr (e, owned) ↦ elim (Option-cases e.normalized_payload) [
        | inl lost ↦ rw (owned, lost, complete) stays
        | inr (p, payload) ↦
            elim (Bool-cases (is_refused ids e.id (new_commands e.id p correlation completion) t)) [
              | inl turned_down ↦ rw (owned, payload, turned_down, complete) stays
              | inr fresh ↦
                  let (row, (same, owns)) = owned_event-select held k t e owned in
                  rw (owned, payload, fresh, complete)
                    (completed now ids correlation completion e p row (ground arith) fresh)
            ]
      ]
    ]

enforce_user_limit-EventStep :
    (now maximum held k user : ℕ) (t : EventTables)
    → EventStep none t (enforce_user_limit now maximum held k user t).1
unfolding enforce_user_limit limit_event
enforce_user_limit-EventStep now maximum held k user t =
    elim (Option-cases (owned_event held k t)) [
      | inl stale ↦ rw (stale, enforce_user_limit) stays
      | inr (e, owned) ↦ elim (Option-cases e.user_abuse_allowed) [
        | inr (decided, before) ↦ rw (owned, before, enforce_user_limit) stays
        | inl undecided ↦
            let (row, (same, owns)) = owned_event-select held k t e owned in
            elim (Bool-cases
              (leb (count_event (user_scope user) (minute_of now) t.windows).0 maximum)) [
                | inl within ↦
                    rw (owned, undecided, within, enforce_user_limit)
                      (allows now user e row (ground arith) undecided)
                | inr beyond ↦
                    rw (owned, undecided, beyond, enforce_user_limit)
                      (suppresses now user e row (ground arith) undecided)
              ]
      ]
    ]

release-EventStep : (held k : ℕ) (t : EventTables) → EventStep none t (release held k t).1
unfolding release
release-EventStep held k t = elim (Option-cases (owned_event held k t)) [
  | inl stale ↦ rw (stale, release) stays
  | inr (e, owned) ↦
      let (row, (same, owns)) = owned_event-select held k t e owned in
      rw (owned, release) (gives_up e row (ground arith))
]

abbrev pub policy_of : StoreCall → Option ProcessingPolicy
policy_of (claims drawn clock now policy outbox) = some policy
policy_of (completes now ids correlation held k completion) = none
policy_of (limits now maximum held k user) = none
policy_of (releases held k) = none

-- Every call of the store, whatever it is given and whatever it answers, takes one of the steps of
-- `EventStep`: it changes nothing, or it is one of the seven changes to the row that it selects,
-- under the conditions of that change.
pub call-EventStep : (c : StoreCall) (t : EventTables) → EventStep (policy_of c) t (call c t)
unfolding call
call-EventStep (claims drawn clock now policy outbox) t =
    claim-EventStep drawn clock now policy outbox t
call-EventStep (completes now ids correlation held k completion) t =
    complete-EventStep now ids correlation held k completion t
call-EventStep (limits now maximum held k user) t =
    enforce_user_limit-EventStep now maximum held k user t
call-EventStep (releases held k) t = release-EventStep held k t
