-- ===== src/Outbox/Dispatch/Postgres.antt =====
-- The dispatcher over its PostgreSQL store: what becomes of one claimed message.
--
-- `World` is the state that the services share: the two tables, the clock, and the telemetry. The
-- Queue is a parameter, which answers each publication at the time that it is made and says when
-- its answer arrives.
use xpens_go.Prelude.{
  Bool, List, ap, arith, false, if◌then◌else◌, ltb, map, none, refl, some, true, ℕ, ◌<◌, ◌==◌, ◌∷◌,
  ◌≡◌, ◌≤◌,
}
use xpens_go.Effect.{Result, err, ok}
use xpens_go.Outbox.ClaimPending.{claim_pending}
use xpens_go.Outbox.Dispatch.{
  DispatchOutcome, OutboxPersistence, OutboxPublication, RuntimeTelemetry, TelemetryEvent,
  failure_input, failure_outcome, handle_message, is_outcome_unknown, retry_delay_seconds,
  settle_publication, was_deferred, was_failed, was_published,
}
use xpens_go.Outbox.Rows.{
  OutboxMessage, OutboxTables, after_seconds, failed, message_id, pending, published,
}
use xpens_go.Outbox.Transitions.{
  mark_published, owns_claim, record_consumption, record_publication_failure, set_failure,
  set_published,
}
use xpens_go.Outbox.Transitions.Laws.{
  if_owned, mark_published_owned, record_publication_failure_owned, select-if_owned_other,
  select-if_owned_self,
}
use xpens_go.Outbox.Types.{
  ClaimedOutboxPublication, CorrelationId, MarkOutboxPublishedInput, OutboxClaimId, OutboxMessageId,
  OutboxPublicationError, maximum_publication_attempts,
}
use xpens_go.Table.{KeepsKey, select}

pub record World : Type 0 where
  pub tables : OutboxTables
  pub clock : ℕ
  pub events : List TelemetryEvent

abbrev pub Queue : Type 0
Queue = OutboxMessageId → CorrelationId → ℕ → Result OutboxPublicationError (Unit {0}) × ℕ

abbrev in_world : {E A : Type 0} → World → Result E A × OutboxTables → Result E A × World
in_world w (r, t) = (r, record w { tables = t })

abbrev pub postgres :
    (OutboxMessageId → OutboxClaimId) → (OutboxMessageId → Bool) → OutboxPersistence World
postgres uuid locked = record {
  claim_pending = λ input w. in_world w (claim_pending uuid locked w.clock input w.tables);
  mark_published = λ input w. in_world w (mark_published w.clock input w.tables);
  record_publication_failure =
      λ input w. in_world w (record_publication_failure w.clock input w.tables);
  record_consumption = λ id w. in_world w (record_consumption w.clock id w.tables);
}

abbrev answered :
    World
    → Result OutboxPublicationError (Unit {0}) × ℕ
    → Result OutboxPublicationError (Unit {0}) × World
answered w (r, later) = (r, record w { clock = later })

abbrev pub cloudflare : Queue → OutboxPublication World
cloudflare queue = record {
  publish = λ id correlation w. answered w (queue id correlation w.clock);
}

abbrev pub console : RuntimeTelemetry World
console = record { emit = λ event w. record w { events = event ∷ w.events } }

-- What a message's row is after the Queue's answer, which arrived at `time`.
abbrev pub IsSettled :
    ℕ → ClaimedOutboxPublication → Result OutboxPublicationError (Unit {0}) → OutboxMessage → Type 0
IsSettled time message (ok _) m =
    (m.status ≡ published) × (m.published_at ≡ some time) × (m.publish_claim_id ≡ none)
IsSettled time message (err error) m =
    (m.publish_claim_id ≡ none)
    × (m.publish_claimed_until ≡ none)
    × (maximum_publication_attempts ≤ message.attempt → m.status ≡ failed)
    × (message.attempt < maximum_publication_attempts
        → (m.status ≡ pending)
          × (m.next_publish_attempt_at
              ≡ after_seconds time
                  (if is_outcome_unknown error then 600 else retry_delay_seconds message.attempt)))

-- The outcome that names what `IsSettled` says of the row.
abbrev pub outcome_of :
    ClaimedOutboxPublication → Result OutboxPublicationError (Unit {0}) → DispatchOutcome
outcome_of message (ok _) = was_published
outcome_of message (err error) =
    if ltb message.attempt maximum_publication_attempts then was_deferred else was_failed

outcome_of-failure :
    (message : ClaimedOutboxPublication) (error : OutboxPublicationError)
    → failure_outcome message ≡ outcome_of message (err error)
outcome_of-failure message error = ground arith

set_published-IsSettled :
    (time : ℕ) (message : ClaimedOutboxPublication) (m : OutboxMessage)
    → IsSettled time message (ok tt) (set_published time m)
unfolding set_published
set_published-IsSettled time message m = (refl, refl, refl)

set_failure-IsSettled :
    (time : ℕ) (message : ClaimedOutboxPublication) (error : OutboxPublicationError)
    (m : OutboxMessage)
    → IsSettled time message (err error) (set_failure time (failure_input message error) m)
unfolding set_failure failure_input
set_failure-IsSettled time message error m = (refl, refl, ground arith, ground arith)

-- What a report on message `k` leaves: the row of `k` settled, and every other row untouched.
abbrev pub Reports :
    OutboxMessageId → (OutboxMessage → Type 0) → OutboxTables → OutboxTables → Type 0
Reports k P t t' =
    ((m : OutboxMessage) × (select message_id k t'.messages ≡ some m) × P m)
    × ((j : OutboxMessageId)
        → (j == k) ≡ false
        → select message_id j t'.messages ≡ select message_id j t.messages)

if_owned-Reports :
    (k : OutboxMessageId) (claim : OutboxClaimId) (f : OutboxMessage → OutboxMessage)
    (P : OutboxMessage → Type 0) (t : OutboxTables) (m : OutboxMessage)
    → KeepsKey message_id f
    → select message_id k t.messages ≡ some m
    → owns_claim k claim m ≡ true
    → P (f m)
    → Reports k P t (record t { messages = map (if_owned k claim f) t.messages })
if_owned-Reports k claim f P t m key found owned p = (
  (f m, select-if_owned_self k claim f key t.messages m found owned, p),
  λ j ne. select-if_owned_other k claim f key t.messages j ne,
)

module _ (uuid : OutboxMessageId → OutboxClaimId) (locked : OutboxMessageId → Bool) where
  settle_publication-IsSettled :
      (w : World) (message : ClaimedOutboxPublication) (m : OutboxMessage)
      (answer : Result OutboxPublicationError (Unit {0}))
      → select message_id message.outbox_message_id w.tables.messages ≡ some m
      → owns_claim message.outbox_message_id message.claim_id m ≡ true
      → (queue : Queue)
      → let (r, w') =
          settle_publication (postgres uuid locked) (cloudflare queue) console message answer w in
        (r ≡ ok (outcome_of message answer))
        × Reports message.outbox_message_id (IsSettled w.clock message answer) w.tables w'.tables
  unfolding settle_publication failure_input
  settle_publication-IsSettled w message m (ok tt) found owned queue =
      let input : MarkOutboxPublishedInput = record {
        outbox_message_id = message.outbox_message_id;
        claim_id = message.claim_id;
      } in
      rw (mark_published_owned w.clock input w.tables m found owned) (
        refl,
        if_owned-Reports message.outbox_message_id message.claim_id (set_published w.clock)
            (IsSettled w.clock message (ok tt)) w.tables m (λ x. unfold set_published in refl) found
            owned (set_published-IsSettled w.clock message m),
      )
  settle_publication-IsSettled w message m (err error) found owned queue =
      let input = failure_input message error in
      rw (record_publication_failure_owned w.clock input w.tables m found owned) (
        ap ok (outcome_of-failure message error),
        if_owned-Reports message.outbox_message_id message.claim_id (set_failure w.clock input)
            (IsSettled w.clock message (err error)) w.tables m (λ x. unfold set_failure in refl)
            found owned (set_failure-IsSettled w.clock message error m),
      )

  -- A dispatcher that still owns its claim when the Queue answers leaves the claimed message
  -- published if the Queue took it; otherwise the claim is released, and the message is pending
  -- again, due after its delay, or failed if that was the last permitted attempt. No other row
  -- changes, and the outcome that is counted is the one that was stored: published if the Queue
  -- took it, failed after the last permitted attempt, and else deferred.
  pub handle_message-IsSettled :
      (queue : Queue) (w : World) (message : ClaimedOutboxPublication) (m : OutboxMessage)
      → select message_id message.outbox_message_id w.tables.messages ≡ some m
      → owns_claim message.outbox_message_id message.claim_id m ≡ true
      → let (answer, time) = queue message.outbox_message_id message.correlation_id w.clock in
        let (r, w') = handle_message (postgres uuid locked) (cloudflare queue) console message w in
        (r ≡ ok (outcome_of message answer))
        × Reports message.outbox_message_id (IsSettled time message answer) w.tables w'.tables
  unfolding handle_message
  handle_message-IsSettled queue w message m found owned =
      let (answer, time) = queue message.outbox_message_id message.correlation_id w.clock in
      settle_publication-IsSettled (record w { clock = time }) message m answer found owned queue
