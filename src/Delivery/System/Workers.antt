-- ===== src/Delivery/System/Workers.antt =====
-- `deliverTelegramReply` over its PostgreSQL store as a schedule of one worker:
-- packages/domain/src/channel/deliver-telegram-reply.ts and
-- packages/adapters/src/postgres/telegram-delivery-store.ts.
--
-- The provider is a parameter: whether it is available, and what it answers.
use xpens_go.Prelude.{
  ==_refl, Bool-cases, List, Option-cases, String, [], inl, inr, leb, refl, true, ℕ, ◌+◌, ◌==◌, ◌∷◌,
  ◌≡◌,
}
use xpens_go.Delivery.Reply.{
  TelegramBotApi, TelegramDeliveryStore, attempt_delivery, conclude, deliver_telegram_reply,
  deliver_when_available,
}
use xpens_go.Delivery.Rows.{DeliveryTables, OutboundMessage, reply_of}
use xpens_go.Delivery.Store.Claim.{claim, claim_row, is_delivering, is_final, is_held, is_taken}
use xpens_go.Delivery.Store.Complete.{complete_attempt}
use xpens_go.Delivery.System.{
  Event, begin, begun, call, finish, of_answer, of_attempt, run, step, take_out,
}
use xpens_go.Delivery.System.Counts.{take_out-first}
use xpens_go.Delivery.System.Once.{at_rest}
use xpens_go.Delivery.Types.{
  ChannelDeliveryAttemptId, ClaimTelegramReplyOutcome, DeliveryError, TelegramDeliveryPolicy,
  TelegramProviderAttemptOutcome, TelegramProviderError, TelegramReplyClaimed, claimed,
  default_telegram_delivery_policy, deferred, outcome_accepted, outcome_ambiguous, outcome_terminal,
  outcome_transient, provider_outcome_unknown, provider_terminal_failure,
  provider_transient_failure, reply_missing, terminal,
}
use xpens_go.Effect.{Result, err, ok, resume}
use xpens_go.Outbox.Types.{OutboxMessageId}

abbrev pub worker_store :
    ChannelDeliveryAttemptId → ℕ → ℕ → ℕ → TelegramDeliveryStore DeliveryTables
worker_store attempt clock now later = record {
  claim = λ outbox policy. claim attempt clock now outbox policy;
  complete_attempt = λ id message outcome. complete_attempt later id message outcome;
}

abbrev pub telegram :
    Result TelegramProviderError (Unit {0})
    → Result TelegramProviderError String
    → TelegramBotApi DeliveryTables
telegram available answer = record {
  ensure_available = λ t. (available, t);
  send = λ conversation intent t. (answer, t);
}

-- What the source stores for an answer of the provider.
abbrev pub outcome_of : Result TelegramProviderError String → TelegramProviderAttemptOutcome
outcome_of (ok id) = outcome_accepted id
outcome_of (err (provider_transient_failure code)) = outcome_transient code
outcome_of (err (provider_terminal_failure code)) = outcome_terminal code
outcome_of (err (provider_outcome_unknown code)) = outcome_ambiguous code

-- The worker's three steps.
abbrev pub schedule :
    ChannelDeliveryAttemptId
    → ℕ
    → ℕ
    → ℕ
    → OutboxMessageId
    → TelegramProviderAttemptOutcome
    → List Event
schedule attempt clock now later outbox outcome =
    begin attempt clock now outbox default_telegram_delivery_policy
    ∷ call attempt outcome
    ∷ finish later attempt
    ∷ []

-- A claimed attempt has the identifier that was drawn for it.
abbrev IsDrawn : ChannelDeliveryAttemptId → Result DeliveryError ClaimTelegramReplyOutcome → Type 0
IsDrawn attempt (ok (claimed c)) = (c.attempt_id == attempt) ≡ true
IsDrawn attempt (ok terminal) = Unit
IsDrawn attempt (ok reply_missing) = Unit
IsDrawn attempt (ok (deferred seconds)) = Unit
IsDrawn attempt (err e) = Unit

claim_row-IsDrawn :
    (attempt clock now : ℕ) (policy : TelegramDeliveryPolicy) (m : OutboundMessage)
    (t : DeliveryTables)
    → IsDrawn attempt (claim_row attempt clock now policy m t).0
unfolding claim_row
claim_row-IsDrawn attempt clock now policy m t = elim (Bool-cases (is_final m.status)) [
  | inl final ↦ rw (final, claim_row) tt
  | inr live ↦ elim (Bool-cases (is_delivering m.status)) [
    | inl busy ↦ elim (Bool-cases (is_held m.delivery_claimed_until clock)) [
      | inl held ↦ rw (live, busy, held, claim_row) tt
      | inr lapsed ↦ rw (live, busy, lapsed, claim_row) tt
    ]
    | inr idle ↦ elim (Bool-cases (leb policy.maximum_attempts m.delivery_attempts)) [
      | inl spent ↦ rw (live, idle, spent, claim_row) tt
      | inr few ↦ elim (Bool-cases (is_taken attempt m.id (m.delivery_attempts + 1) t.attempts)) [
        | inl taken ↦ rw (live, idle, few, taken, claim_row) tt
        | inr fresh ↦ rw (live, idle, few, fresh, claim_row) (==_refl attempt)
      ]
    ]
  ]
]

claim-IsDrawn :
    (attempt clock now outbox : ℕ) (policy : TelegramDeliveryPolicy) (t : DeliveryTables)
    → IsDrawn attempt (claim attempt clock now outbox policy t).0
unfolding claim
claim-IsDrawn attempt clock now outbox policy t = elim (Option-cases (reply_of t outbox)) [
  | inl missing ↦ rw (missing, claim) tt
  | inr (m, found) ↦ rw (found, claim) (claim_row-IsDrawn attempt clock now policy m t)
]

resume-succeed :
    {A B : Type 0} (r : Result DeliveryError A × DeliveryTables) (b : Result DeliveryError B)
    → (resume (λ a t. (b, t)) r).1 ≡ r.1
resume-succeed (ok a, t) b = refl
resume-succeed (err e, t) b = refl

module _ (attempt clock now later outbox : ℕ) (answer : Result TelegramProviderError String) where
  abbrev store : TelegramDeliveryStore DeliveryTables
  store = worker_store attempt clock now later

  abbrev provider : TelegramBotApi DeliveryTables
  provider = telegram (ok tt) answer

  conclude-tables :
      (c : TelegramReplyClaimed) (a : Result TelegramProviderError String) (t : DeliveryTables)
      → (conclude store provider c a t).1
        ≡ (complete_attempt later c.attempt_id c.outbound_message_id (outcome_of a) t).1
  unfolding conclude
  conclude-tables c (ok id) t = resume-succeed _ _
  conclude-tables c (err (provider_transient_failure code)) t = resume-succeed _ _
  conclude-tables c (err (provider_terminal_failure code)) t = resume-succeed _ _
  conclude-tables c (err (provider_outcome_unknown code)) t = resume-succeed _ _

  claimed-tables :
      (c : TelegramReplyClaimed) (t t' : DeliveryTables)
      → (c.attempt_id == attempt) ≡ true
      → (attempt_delivery store provider (claimed c) t').1
        ≡ (run
            (call attempt (outcome_of answer) ∷ finish later attempt ∷ [])
            (begun (at_rest t) (ok (claimed c), t'))).tables
  unfolding attempt_delivery run step
  claimed-tables c t t' own =
      rw
        (
          take_out-first (of_attempt attempt) c [] own,
          take_out-first (of_answer attempt) (record { claim = c; outcome = outcome_of answer }) []
              own,
        )
        (conclude-tables c answer t')

  attempt_delivery-tables :
      (r : Result DeliveryError ClaimTelegramReplyOutcome) (t t' : DeliveryTables)
      → IsDrawn attempt r
      → (resume (attempt_delivery store provider) (r, t')).1
        ≡ (run
            (call attempt (outcome_of answer) ∷ finish later attempt ∷ [])
            (begun (at_rest t) (r, t'))).tables
  unfolding attempt_delivery run step take_out
  attempt_delivery-tables (ok (claimed c)) t t' own = claimed-tables c t t' own
  attempt_delivery-tables (ok terminal) t t' own = refl
  attempt_delivery-tables (ok reply_missing) t t' own = refl
  attempt_delivery-tables (ok (deferred seconds)) t t' own = refl
  attempt_delivery-tables (err e) t t' own = refl

  -- When the provider is available, delivering a reply leaves the tables as the worker's schedule
  -- does, which starts with no other worker: claim with the default policy, call with the provider's
  -- answer, store that answer.
  pub deliver_telegram_reply-schedule :
      (t : DeliveryTables)
      → (deliver_telegram_reply store provider outbox t).1
        ≡ (run (schedule attempt clock now later outbox (outcome_of answer)) (at_rest t)).tables
  unfolding deliver_telegram_reply deliver_when_available run step
  deliver_telegram_reply-schedule t =
      let (r, t') = claim attempt clock now outbox default_telegram_delivery_policy t in
      attempt_delivery-tables r t t'
        (claim-IsDrawn attempt clock now outbox default_telegram_delivery_policy t)
