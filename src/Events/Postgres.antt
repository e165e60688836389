-- ===== src/Events/Postgres.antt =====
-- `processTelegramEvent` (packages/domain/src/channel/process-telegram-event.ts) with the PostgreSQL
-- store (packages/adapters/src/postgres/telegram-event-processing-store.ts), and the delivery of the
-- reply that it queues (packages/adapters/src/postgres/telegram-delivery-store.ts).
--
-- The state is the tables of processing and whatever the identity service keeps.
use xpens_go.Prelude.{
  ==_refl, Bool-cases, Option-cases, [], ap, arith, false, inl, inr, map, none, refl, some, subst,
  sym, ℕ, ◌∙◌, ◌≡◌, ◌≤◌,
}
use xpens_go.Delivery.Rows.{DeliveryTables, OutboundMessage, ReplyJob, pending, reply_of}
use xpens_go.Delivery.Store.Claim.{claim as claim_reply, claim_row}
use xpens_go.Delivery.Types.{TelegramDeliveryPolicy, claimed}
use xpens_go.Effect.{Effect, Result, ok}
use xpens_go.Events.Process.{EventStore, Identity, process_telegram_event}
use xpens_go.Events.Rows.{
  EventPayload, EventReply, EventReplyJob, EventTables, InboundEvent, event_id,
}
use xpens_go.Events.Steps.{IsRow, insert_reply, rewrite}
use xpens_go.Events.Steps.Calls.{owned_event-select}
use xpens_go.Events.Steps.Claims.{WasFree, claim-Given}
use xpens_go.Events.Store.Claim.{claim, claimed_event, default_processing_policy, event_of}
use xpens_go.Events.Store.Complete.{
  DrawnIds, complete, complete_event, completion_intent, is_refused, new_commands, new_reply,
  owned_event, process_event, release,
}
use xpens_go.Events.Store.Limit.{enforce_user_limit}
use xpens_go.Events.Stored.{process-IsStored}
use xpens_go.Events.Types.{
  EventCompletion, ProcessError, ProcessingClaimId, event_claimed, processed,
}
use xpens_go.Outbox.Types.{CorrelationId}
use xpens_go.Table.{select}
use xpens_go.Table.Laws.{select-update_self}

-- What one worker draws and reads while it processes a job.
pub record Worker : Type 0 where
  pub drawn_claim : ProcessingClaimId
  pub clock : ℕ
  pub claim_time : ℕ
  pub limit_time : ℕ
  pub completion_time : ℕ
  pub ids : DrawnIds
  pub correlation : CorrelationId

module _ {I : Type 0} where
  abbrev pub beside :
      {A : Type 0}
      → I
      → Result ProcessError A × EventTables
      → Result ProcessError A × (EventTables × I)
  beside i (r, t) = (r, (t, i))

  abbrev pub in_tables :
      {A : Type 0} → Effect EventTables ProcessError A → Effect (EventTables × I) ProcessError A
  in_tables m (t, i) = beside i (m t)

  -- `TelegramEventProcessingStore`, with the policy that `processTelegramEvent` passes.
  unfoldable pub postgres_store : Worker → EventStore (EventTables × I)
  postgres_store w = record {
    claim = λ outbox.
        in_tables (claim w.drawn_claim w.clock w.claim_time default_processing_policy outbox);
    complete = λ held k completion.
        in_tables (complete w.completion_time w.ids w.correlation held k completion);
    enforce_user_limit = λ held k user. in_tables (
        enforce_user_limit w.limit_time default_processing_policy.per_identity_per_minute held k
          user);
    release = λ held k. in_tables (release held k);
  }

completion-eq :
    (now : ℕ) (ids : DrawnIds) (correlation held k : ℕ) (e : InboundEvent) (p : EventPayload)
    (completion : EventCompletion) (t : EventTables)
    → owned_event held k t ≡ some e
    → e.normalized_payload ≡ some p
    → is_refused ids e.id (new_commands e.id p correlation completion) t ≡ false
    → complete now ids correlation held k completion t ≡ (
      ok ids.reply_id,
      rewrite e (process_event now completion) (insert_reply ids correlation completion e p t),
    )
unfolding complete complete_event
completion-eq now ids correlation held k e p completion t owned payload fresh =
    rw (owned, payload, fresh, complete) refl

-- A completion that succeeds.
pub complete-ok :
    (now : ℕ) (ids : DrawnIds) (correlation held k : ℕ) (completion : EventCompletion)
    (t t' : EventTables) (id : ℕ)
    → complete now ids correlation held k completion t ≡ (ok id, t')
    → (e : InboundEvent) × (p : EventPayload) × IsRow t e
      × (e.id ≡ k)
      × (e.normalized_payload ≡ some p)
      × (id ≡ ids.reply_id)
      × (t'
          ≡ rewrite e
              (process_event now completion)
              (insert_reply ids correlation completion e p t))
unfolding complete complete_event
complete-ok now ids correlation held k completion t t' id h =
    elim (Option-cases (owned_event held k t)) [
      | inl stale ↦ absurd (ground (arith, h, stale))
      | inr (e, owned) ↦ elim (Option-cases e.normalized_payload) [
        | inl lost ↦ absurd (ground (arith, h, owned, lost))
        | inr (p, payload) ↦
            elim (Bool-cases (is_refused ids e.id (new_commands e.id p correlation completion) t)) [
              | inl blocked ↦ absurd (ground (arith, h, owned, payload, blocked))
              | inr fresh ↦
                  let (row, (same, owns)) = owned_event-select held k t e owned in
                  let done =
                    sym h
                    ∙ completion-eq now ids correlation held k e p completion t owned payload
                        fresh in
                  (e, p, row, same, payload, cc done, cc done)
            ]
      ]
    ]

-- The reply as the delivery finds it: with the defaults of its columns.
abbrev pub queued_message : EventReply → OutboundMessage
queued_message r = record {
  id = r.id;
  external_conversation_id = r.external_conversation_id;
  intent = r.intent;
  correlation_id = r.correlation_id;
  status = pending;
  delivery_attempts = 0;
  delivery_claim_id = none;
  delivery_claimed_until = none;
  provider_message_id = none;
  last_error_code = none;
  provider_accepted_at = none;
  terminal_at = none;
}

abbrev pub queued_job : EventReplyJob → ReplyJob
queued_job j = record { id = j.id; outbound_message_id = j.outbound_message_id }

-- The tables of delivery before anything is delivered.
abbrev pub delivery_tables : EventTables → DeliveryTables
delivery_tables t = record {
  messages = map queued_message t.replies;
  attempts = [];
  jobs = map queued_job t.reply_jobs;
  recoveries = [];
}

insert_reply-claim :
    (ids : DrawnIds) (correlation : ℕ) (completion : EventCompletion) (e : InboundEvent)
    (p : EventPayload) (t : EventTables) (f : InboundEvent → InboundEvent) (attempt clock now : ℕ)
    (policy : TelegramDeliveryPolicy)
    → 1 ≤ policy.maximum_attempts
    → (claim_reply attempt clock now ids.job_id policy
        (delivery_tables (rewrite e f (insert_reply ids correlation completion e p t)))).0
      ≡ ok (
          claimed (record {
            attempt_id = attempt;
            outbound_message_id = ids.reply_id;
            external_conversation_id = p.external_conversation_id;
            intent = completion_intent completion;
          }))
unfolding claim_reply claim_row reply_of
insert_reply-claim ids correlation completion e p t f attempt clock now policy some_attempts =
    let tables = delivery_tables (rewrite e f (insert_reply ids correlation completion e p t)) in
    let queued = queued_message (new_reply ids e.id p correlation completion) in
    let found : reply_of tables ids.job_id ≡ some queued =
      rw (==_refl ids.job_id, ==_refl ids.reply_id, reply_of) refl in
    rw (found, claim_reply) (ground arith)

inserted-claim :
    (ids : DrawnIds) (now correlation : ℕ) (completion : EventCompletion) (e : InboundEvent)
    (p : EventPayload) (t t' : EventTables) (id : ℕ) (attempt clock at_time : ℕ)
    (policy : TelegramDeliveryPolicy)
    → 1 ≤ policy.maximum_attempts
    → id ≡ ids.reply_id
    → t' ≡ rewrite e (process_event now completion) (insert_reply ids correlation completion e p t)
    → (claim_reply attempt clock at_time ids.job_id policy (delivery_tables t')).0
      ≡ ok (
          claimed (record {
            attempt_id = attempt;
            outbound_message_id = id;
            external_conversation_id = p.external_conversation_id;
            intent = completion_intent completion;
          }))
inserted-claim ids now correlation completion e p t t' id attempt clock at_time policy some_attempts
      its_id after =
    rw (its_id, after)
      (insert_reply-claim ids correlation completion e p t (process_event now completion) attempt
        clock at_time policy some_attempts)

-- When an event is reported as processed with a reply, over the PostgreSQL store and any identity
-- service: the event of the job was free and was claimed, its row is now processed, and the reply
-- that is reported is what the delivery worker of the queued job claims first, addressed to the
-- conversation of that event, under any policy that permits an attempt.
pub processed_is_delivered :
    {I : Type 0} (w : Worker) (identity : Identity (EventTables × I)) (outbox id : ℕ)
    (s s' : EventTables × I) (attempt clock now : ℕ) (policy : TelegramDeliveryPolicy)
    → process_telegram_event (postgres_store w) identity outbox s ≡ (ok (processed id), s')
    → 1 ≤ policy.maximum_attempts
    → (e₀ : InboundEvent) × (p₀ : EventPayload) × (event_of s.0 outbox ≡ some (e₀, p₀))
      × WasFree w.clock e₀
      × ((claim w.drawn_claim w.clock w.claim_time default_processing_policy outbox s.0).0
          ≡ ok (event_claimed (claimed_event w.drawn_claim e₀ p₀)))
      × (e : InboundEvent) × (p : EventPayload) × (completion : EventCompletion) × (e.id ≡ e₀.id)
      × (e.normalized_payload ≡ some p)
      × (select event_id e.id s'.0.events ≡ some (process_event w.completion_time completion e))
      × ((claim_reply attempt clock now w.ids.job_id policy (delivery_tables s'.0)).0
          ≡ ok (
              claimed (record {
                attempt_id = attempt;
                outbound_message_id = id;
                external_conversation_id = p.external_conversation_id;
                intent = completion_intent completion;
              })))
unfolding postgres_store
processed_is_delivered w identity outbox id s s' attempt clock now policy h some_attempts =
    let (c, s₁, claimed_now, (completion, (t, i), stored)) =
      process-IsStored (postgres_store w) identity outbox s s' id h in
    let (e, p, row, same, payload, its_id, after) =
      complete-ok w.completion_time w.ids w.correlation c.claim_id c.inbound_event_id completion t
        s'.0 id (ap (λ x. (x.0, x.1.0)) stored) in
    let claims_it : claim w.drawn_claim w.clock w.claim_time default_processing_policy outbox s.0
        ≡ (ok (event_claimed c), s₁.0) =
      ap (λ x. (x.0, x.1.0)) claimed_now in
    let (e₀, p₀, its_job, g) =
      claim-Given w.drawn_claim w.clock w.claim_time default_processing_policy outbox s.0 s₁.0 c
        claims_it in
    let done = process_event w.completion_time completion in
    (
      e₀,
      p₀,
      its_job,
      g.was_free,
      ap (λ x. x.0) claims_it ∙ ap (λ x. ok (event_claimed x)) g.its_claim,
      e,
      p,
      completion,
      same ∙ ap (λ x. x.inbound_event_id) g.its_claim,
      payload,
      subst (λ x. select event_id e.id x.events ≡ some (done e)) (sym after)
          (rw (select-update_self event_id e.id done (λ r. refl) t.events, row) refl),
      inserted-claim w.ids w.completion_time w.correlation completion e p t s'.0 id attempt clock
          now policy some_attempts its_id after,
    )
