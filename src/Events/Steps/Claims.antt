-- ===== src/Events/Steps/Claims.antt =====
-- What a claim that is given says: packages/adapters/src/postgres/
-- telegram-event-processing-store.ts.
use xpens_go.Prelude.{
  ==_refl, Bool-cases, Option-cases, ap, arith, false, inl, inr, refl, some, subst, sym, true, ℕ,
  ◌&&◌, ◌≡◌,
}
use xpens_go.Delivery.Store.Claim.{is_held}
use xpens_go.Effect.{ok}
use xpens_go.Events.Rows.{EventPayload, EventTables, InboundEvent, event_id}
use xpens_go.Events.Steps.{IsRow, insert_reply, rewrite}
use xpens_go.Events.Steps.Calls.{event_of-select}
use xpens_go.Events.Steps.Holder.{AreFresh, holder_completes}
use xpens_go.Events.Steps.Once.{IsAnswered, unanswered}
use xpens_go.Events.Store.Claim.{
  ProcessingPolicy, claim, claim_event, claimed_event, counted_windows, event_of, is_false,
  is_in_process, is_settled, is_within_limits, start_processing, started,
}
use xpens_go.Events.Store.Complete.{DrawnIds, complete, owned_event, process_event}
use xpens_go.Events.Types.{ClaimedEvent, EventCompletion, event_claimed}
use xpens_go.Outbox.Types.{OutboxMessageId}
use xpens_go.Table.{select, update}
use xpens_go.Table.Laws.{select-update_self}

-- The event that a claim is given for: it was waiting, or its lease had ended, and it was not refused
-- for abuse.
pub record WasFree (clock : ℕ) (e : InboundEvent) : Type 0 where
  pub not_settled : is_settled e.processing_status ≡ false
  pub not_held :
      (is_in_process e.processing_status && is_held e.processing_claimed_until clock) ≡ false
  pub not_refused : is_false e.abuse_allowed ≡ false

pub record Given (drawn clock now : ℕ) (policy : ProcessingPolicy) (t t' : EventTables)
    (c : ClaimedEvent) (e : InboundEvent) (p : EventPayload) : Type 0 where
  pub was_free : WasFree clock e
  pub its_claim : c ≡ claimed_event drawn e p
  pub its_events : t'.events ≡ update event_id e.id (start_processing drawn now policy) t.events
  pub nothing_sent :
      (t'.replies ≡ t.replies)
      × (t'.reply_jobs ≡ t.reply_jobs)
      × (t'.commands ≡ t.commands)
      × (t'.event_jobs ≡ t.event_jobs)

started-Given :
    (drawn clock now : ℕ) (policy : ProcessingPolicy) (e : InboundEvent) (p : EventPayload)
    (t t₀ t' : EventTables) (c : ClaimedEvent)
    → WasFree clock e
    → t₀.events ≡ t.events
    → (t₀.replies ≡ t.replies)
      × (t₀.reply_jobs ≡ t.reply_jobs)
      × (t₀.commands ≡ t.commands)
      × (t₀.event_jobs ≡ t.event_jobs)
    → started drawn now policy e p t₀ ≡ (ok (event_claimed c), t')
    → Given drawn clock now policy t t' c e p
started-Given drawn clock now policy e p t t₀ t' c free same (r, j, m, v) h =
    let after : t' ≡ (started drawn now policy e p t₀).1 = cc h in
    record {
      was_free = free;
      its_claim = cc h;
      its_events = rw (after, same) refl;
      nothing_sent = rw after (r, j, m, v);
    }

pub claim_event-Given :
    (drawn clock now : ℕ) (policy : ProcessingPolicy) (e : InboundEvent) (p : EventPayload)
    (t t' : EventTables) (c : ClaimedEvent)
    → claim_event drawn clock now policy e p t ≡ (ok (event_claimed c), t')
    → Given drawn clock now policy t t' c e p
unfolding claim_event
claim_event-Given drawn clock now policy e p t t' c h =
    elim (Bool-cases (is_settled e.processing_status)) [
      | inl settled ↦ absurd (ground (arith, h, settled))
      | inr unsettled ↦
          elim (Bool-cases
            (is_in_process e.processing_status && is_held e.processing_claimed_until clock)) [
              | inl held ↦ absurd (ground (arith, h, unsettled, held))
              | inr free ↦ elim (Option-cases e.abuse_allowed) [
                | inl unchecked ↦
                    let was : WasFree clock e = record {
                      not_settled = unsettled;
                      not_held = free;
                      not_refused = rw unchecked refl;
                    } in
                    elim (Bool-cases
                      (is_within_limits now policy p.external_account_id t.windows)) [
                        | inl within ↦
                            started-Given drawn clock now policy e p t
                              (record t {
                                windows = counted_windows now p.external_account_id t.windows;
                              })
                              t' c was refl (refl, refl, refl, refl)
                              (ground (arith, h, unsettled, free, unchecked, within))
                        | inr beyond ↦
                            absurd (ground (arith, h, unsettled, free, unchecked, beyond))
                      ]
                | inr (true, before) ↦
                    started-Given drawn clock now policy e p t t t' c
                      (record {
                        not_settled = unsettled;
                        not_held = free;
                        not_refused = rw before refl;
                      })
                      refl (refl, refl, refl, refl) (ground (arith, h, unsettled, free, before))
                | inr (false, before) ↦ absurd (ground (arith, h, unsettled, free, before))
              ]
            ]
    ]

pub claim-Given :
    (drawn clock now : ℕ) (policy : ProcessingPolicy) (outbox : OutboxMessageId)
    (t t' : EventTables) (c : ClaimedEvent)
    → claim drawn clock now policy outbox t ≡ (ok (event_claimed c), t')
    → (e : InboundEvent) × (p : EventPayload) × (event_of t outbox ≡ some (e, p))
      × Given drawn clock now policy t t' c e p
unfolding claim
claim-Given drawn clock now policy outbox t t' c h = elim (Option-cases (event_of t outbox)) [
  | inl missing ↦ absurd (ground (arith, h, missing))
  | inr ((e, p), found) ↦
      (e, p, found, claim_event-Given drawn clock now policy e p t t' c (ground (arith, h, found)))
]

-- The row of the event, once its claim is given.
pub select-after :
    (drawn clock now : ℕ) (policy : ProcessingPolicy) (t t' : EventTables) (c : ClaimedEvent)
    (e : InboundEvent) (p : EventPayload)
    → IsRow t e
    → Given drawn clock now policy t t' c e p
    → select event_id e.id t'.events ≡ some (start_processing drawn now policy e)
select-after drawn clock now policy t t' c e p row g =
    let start = start_processing drawn now policy in
    subst (λ x. select event_id e.id x ≡ some (start e)) (sym g.its_events)
      (rw (select-update_self event_id e.id start (λ r. refl) t.events, row) refl)

-- Between a claim and its completion.
owned_event-after :
    (drawn clock now : ℕ) (policy : ProcessingPolicy) (t t' : EventTables) (c : ClaimedEvent)
    (e : InboundEvent) (p : EventPayload)
    → IsRow t e
    → Given drawn clock now policy t t' c e p
    → owned_event drawn e.id t' ≡ some (start_processing drawn now policy e)
unfolding owned_event
owned_event-after drawn clock now policy t t' c e p row g =
    let held = select-after drawn clock now policy t t' c e p row g in
    rw (held, owned_event) (ground (arith, ==_refl drawn))

after-IsAnswered :
    (drawn clock now : ℕ) (policy : ProcessingPolicy) (t t' : EventTables) (c : ClaimedEvent)
    (e : InboundEvent) (p : EventPayload)
    → IsRow t e
    → Given drawn clock now policy t t' c e p
    → IsAnswered e.id t
    → IsAnswered e.id t'
after-IsAnswered drawn clock now policy t t' c e p row g h =
    let (r, j, m, v) = g.nothing_sent in
    unanswered e.id t t' e (start_processing drawn now policy) g.its_events row (λ x. refl)
      (rw (r, j, m) refl) g.was_free.not_settled refl h

-- A worker whose claim is given can finish: the event was free, not refused for abuse, and is the one
-- of the job; and if it has no reply, job or command yet, and the drawn identifiers are new, the
-- worker's completion, whatever it is and however late, succeeds as long as nothing happened in
-- between, and leaves the event processed.
pub claim_completes :
    (drawn clock now later correlation : ℕ) (policy : ProcessingPolicy) (outbox : OutboxMessageId)
    (ids : DrawnIds) (completion : EventCompletion) (t t' : EventTables) (c : ClaimedEvent)
    → claim drawn clock now policy outbox t ≡ (ok (event_claimed c), t')
    → IsAnswered c.inbound_event_id t
    → AreFresh ids t
    → (e : InboundEvent) × (p : EventPayload) × (event_of t outbox ≡ some (e, p))
      × WasFree clock e
      × (c ≡ claimed_event drawn e p)
      × (complete later ids correlation c.claim_id c.inbound_event_id completion t' ≡ (
        ok ids.reply_id,
        rewrite e (process_event later completion) (insert_reply ids correlation completion e p t'),
      ))
claim_completes drawn clock now later correlation policy outbox ids completion t t' c h a f =
    let (e, p, found, g) = claim-Given drawn clock now policy outbox t t' c h in
    let (row, payload) = event_of-select t outbox e p found in
    let (r, j, m, v) = g.nothing_sent in
    let start = start_processing drawn now policy in
    let its_event : c.inbound_event_id ≡ e.id = ap (λ x. x.inbound_event_id) g.its_claim in
    let answered : IsAnswered e.id t = subst (λ k. IsAnswered k t) its_event a in
    let fresh : AreFresh ids t' = record {
      fresh_reply_id = rw r f.fresh_reply_id;
      fresh_in_event_jobs = rw v f.fresh_in_event_jobs;
      fresh_in_reply_jobs = rw j f.fresh_in_reply_jobs;
    } in
    (
      e,
      p,
      found,
      g.was_free,
      g.its_claim,
      subst
          (λ x. complete later ids correlation x.claim_id x.inbound_event_id completion t' ≡ (
            ok ids.reply_id,
            rewrite e (process_event later completion)
                (insert_reply ids correlation completion e p t'),
          ))
          (sym g.its_claim)
          (holder_completes later ids correlation drawn e.id completion (start e) p t'
            (owned_event-after drawn clock now policy t t' c e p row g) payload
            (after-IsAnswered drawn clock now policy t t' c e p row g answered) fresh),
    )
