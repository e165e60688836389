-- ===== src/Delivery/System.antt =====
-- Workers that deliver Telegram replies at the same time, and an operator who recovers them.
--
-- `deliverTelegramReply` (packages/domain/src/channel/deliver-telegram-reply.ts) is three steps with
-- time between them: it claims an attempt, calls the provider, and stores the answer. `System` holds
-- the tables and, of each worker, how far it is; an event is one step of one worker, a crash, or a
-- statement of the operator. `sends` is every call that the provider has received.
pub mod Counts
pub mod Invariant
pub mod Steps
pub mod Schedules
pub mod Once
pub mod Workers
pub mod Consistency
use xpens_go.Prelude.{Bool, List, Option, String, [], if◌then◌else◌, none, some, ℕ, ◌==◌, ◌∷◌}
use xpens_go.Delivery.RecoveryStore.{mark_published, prepare}
use xpens_go.Delivery.Rows.{DeliveryTables}
use xpens_go.Delivery.Store.Claim.{claim}
use xpens_go.Delivery.Store.Complete.{complete_attempt}
use xpens_go.Delivery.Types.{
  ChannelDeliveryAttemptId, ClaimTelegramReplyOutcome, DeliveryError, OutboundChannelMessageId,
  RecoverTelegramDeliveryInput, TelegramDeliveryPolicy, TelegramProviderAttemptOutcome,
  TelegramReplyClaimed, claimed, deferred, reply_missing, terminal,
}
use xpens_go.Effect.{Result, err, ok}
use xpens_go.Outbox.Types.{OutboxMessageId}

-- A call of the provider whose answer is not stored yet.
pub record Answered : Type 0 where
  pub claim : TelegramReplyClaimed
  pub outcome : TelegramProviderAttemptOutcome

pub record Send : Type 0 where
  pub message : OutboundChannelMessageId
  pub outcome : TelegramProviderAttemptOutcome

pub record System : Type 0 where
  pub tables : DeliveryTables
  pub unsent : List TelegramReplyClaimed
  pub answers : List Answered
  pub sends : List Send

pub data Event : Type 0 where
  -- A worker claims: the drawn identifier, its clock, the database's time, the job, the policy.
  begin : ChannelDeliveryAttemptId → ℕ → ℕ → OutboxMessageId → TelegramDeliveryPolicy → Event
  -- The worker of an attempt calls the provider, which does this.
  call : ChannelDeliveryAttemptId → TelegramProviderAttemptOutcome → Event
  -- The worker of an attempt stores its answer.
  finish : ℕ → ChannelDeliveryAttemptId → Event
  -- The worker of an attempt stops before its call, or before it stores the answer.
  crash_unsent crash_answered : ChannelDeliveryAttemptId → Event
  recover : RecoverTelegramDeliveryInput → ℕ → Event
  publish : ℕ → String → Event

abbrev put_back : {A : Type 0} → A → Option (A × List A) → Option (A × List A)
put_back x none = none
put_back x (some (a, rest)) = some (a, x ∷ rest)

-- The first element that passes the test, and the others.
unfoldable pub take_out : {A : Type 0} → (A → Bool) → List A → Option (A × List A)
take_out p [] = none
take_out p (x ∷ xs) = if p x then some (x, xs) else put_back x (take_out p xs)

abbrev pub of_attempt : ChannelDeliveryAttemptId → TelegramReplyClaimed → Bool
of_attempt attempt c = c.attempt_id == attempt

abbrev pub of_answer : ChannelDeliveryAttemptId → Answered → Bool
of_answer attempt a = of_attempt attempt a.claim

abbrev pub begun : System → Result DeliveryError ClaimTelegramReplyOutcome × DeliveryTables → System
begun s (ok (claimed c), t) = record s { tables = t; unsent = c ∷ s.unsent }
begun s (ok terminal, t) = record s { tables = t }
begun s (ok reply_missing, t) = record s { tables = t }
begun s (ok (deferred _), t) = record s { tables = t }
begun s (err _, t) = record s { tables = t }

abbrev pub called :
    TelegramProviderAttemptOutcome
    → System
    → Option (TelegramReplyClaimed × List TelegramReplyClaimed)
    → System
called outcome s none = s
called outcome s (some (c, rest)) = record s {
  unsent = rest;
  answers = record { claim = c; outcome = outcome } ∷ s.answers;
  sends = record { message = c.outbound_message_id; outcome = outcome } ∷ s.sends;
}

abbrev pub finished : ℕ → System → Option (Answered × List Answered) → System
finished now s none = s
finished now s (some (a, rest)) = record s {
  tables =
      (complete_attempt now a.claim.attempt_id a.claim.outbound_message_id a.outcome s.tables).1;
  answers = rest;
}

abbrev pub dropped_unsent :
    System → Option (TelegramReplyClaimed × List TelegramReplyClaimed) → System
dropped_unsent s none = s
dropped_unsent s (some (c, rest)) = record s { unsent = rest }

abbrev pub dropped_answer : System → Option (Answered × List Answered) → System
dropped_answer s none = s
dropped_answer s (some (a, rest)) = record s { answers = rest }

unfoldable pub step : Event → System → System
step (begin attempt clock now outbox policy) s =
    begun s (claim attempt clock now outbox policy s.tables)
step (call attempt outcome) s = called outcome s (take_out (of_attempt attempt) s.unsent)
step (finish now attempt) s = finished now s (take_out (of_answer attempt) s.answers)
step (crash_unsent attempt) s = dropped_unsent s (take_out (of_attempt attempt) s.unsent)
step (crash_answered attempt) s = dropped_answer s (take_out (of_answer attempt) s.answers)
step (recover input maximum) s = record s { tables = (prepare input maximum s.tables).1 }
step (publish now id) s = record s { tables = (mark_published now id s.tables).1 }

unfoldable pub run : List Event → System → System
run [] s = s
run (e ∷ es) s = run es (step e s)
