-- ===== src/Outbox/Dispatch/Summary.antt =====
-- The dispatcher's summary, against what the Queue answered.
use xpens_go.Prelude.{Bool, List, [], count, false, length, ltb, true, ◌∷◌, ◌≡◌}
use xpens_go.Effect.{Result, err, ok}
use xpens_go.Outbox.Dispatch.{
  DispatchOutcome, OutboxPersistence, OutboxPublication, RuntimeTelemetry, settle_publication,
  tally, was_deferred, was_failed, was_published,
}
use xpens_go.Outbox.Types.{ClaimedOutboxPublication, OutboxPublicationError}

-- A claimed message, and what the Queue answered when it was published.
abbrev pub Answer : Type 0
Answer = ClaimedOutboxPublication × Result OutboxPublicationError (Unit {0})

abbrev pub was_taken : Answer → Bool
was_taken (message, ok _) = true
was_taken (message, err error) = false

-- A refusal of the last permitted attempt, the fifth,
abbrev pub was_last_refusal : Answer → Bool
was_last_refusal (message, ok _) = false
was_last_refusal (message, err error) = ltb 4 message.attempt

-- and of an earlier one.
abbrev pub was_early_refusal : Answer → Bool
was_early_refusal (message, ok _) = false
was_early_refusal (message, err error) = ltb message.attempt 5

-- The outcomes agree with the answers.
abbrev pub Agrees : List DispatchOutcome → List Answer → Type 0
Agrees outcomes answers =
    (tally was_published outcomes ≡ count was_taken answers)
    × (tally was_failed outcomes ≡ count was_last_refusal answers)
    × (tally was_deferred outcomes ≡ count was_early_refusal answers)
    × (length outcomes ≡ length answers)

module _ {S : Type 0} (persistence : OutboxPersistence S) (publication : OutboxPublication S)
    (telemetry : RuntimeTelemetry S) where
  -- Each message of the batch was published once, in its order, and these are the Queue's answers.
  -- Each was settled by its answer, before the next message was published.
  pub data Publishes : List ClaimedOutboxPublication → List Answer → S → Type 0 where
    no_more : {s : S} → Publishes [] [] s
    one_more :
        {m : ClaimedOutboxPublication} {ms : List ClaimedOutboxPublication} {as' : List Answer}
        {s : S} (answer : Result OutboxPublicationError (Unit {0})) (s₁ s₂ : S)
        (outcome : DispatchOutcome)
        → publication.publish m.outbox_message_id m.correlation_id s ≡ (answer, s₁)
        → settle_publication persistence publication telemetry m answer s₁ ≡ (ok outcome, s₂)
        → Publishes ms as' s₂
        → Publishes (m ∷ ms) ((m, answer) ∷ as') s
