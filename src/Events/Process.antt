-- ===== src/Events/Process.antt =====
-- `processTelegramEvent` of packages/domain/src/channel/process-telegram-event.ts, over the store and
-- the identity service that it is given. The correlation identifier, which every call passes on, and
-- the limits of the policy are part of the services.
use xpens_go.Prelude.{Bool, String, [], false, if◌then◌else◌, true, ℕ, ◌∷◌}
use xpens_go.Delivery.Types.{
  ChallengePurpose, IntentPurpose, OutboundChannelMessageId, RejectionReason, TelegramReplyContent,
  TelegramReplyIntent, already_linked, already_used, capture_unavailable, challenge_rejected,
  expired, identity_mismatch, invalid_command, link, link_required, link_succeeded, not_found,
  open_web, reply, system, unlink, unlink_succeeded,
}
use xpens_go.Effect.{Effect, Result, either, err, fail, ok, succeed, ◌>>=◌, ◌>>◌}
use xpens_go.Events.Types.{
  Actor, ChallengeRejectionError, ClaimEventOutcome, ClaimedEvent, EventCompletion, EventContent,
  IdentityError, InboundEventId, ProcessError, ProcessOutcome, ProcessingClaimId, UserLimit,
  already_linked_elsewhere, challenge_consumed, challenge_expired, challenge_mismatch,
  challenge_not_found, event_claimed, event_deferred, event_duplicate, event_missing,
  event_rate_limited, identity_not_found, identity_rejected, identity_resolution_unavailable,
  identity_unavailable, invalid_event_command, link_command, linked_text_accepted, over_limit,
  processed, processing_deferred, scoped_reply, suppressed, text_content, unlink_command,
  unscoped_reply, was_duplicate, was_missing, within_limit,
}
use xpens_go.Outbox.Types.{OutboxMessageId}

pub record EventStore (S : Type 0) : Type 0 where
  pub claim : OutboxMessageId → Effect S ProcessError ClaimEventOutcome
  pub complete :
      ProcessingClaimId
      → InboundEventId
      → EventCompletion
      → Effect S ProcessError OutboundChannelMessageId
  pub enforce_user_limit :
      ProcessingClaimId → InboundEventId → (user_id : ℕ) → Effect S ProcessError UserLimit
  pub release : ProcessingClaimId → InboundEventId → Effect S ProcessError (Unit {0})

pub record Identity (S : Type 0) : Type 0 where
  pub resolve_telegram_actor : (external_account_id : String) → Effect S IdentityError Actor
  pub consume_link :
      (digest : String) → (external_account_id : String) → Effect S IdentityError Actor
  pub consume_unlink :
      (digest : String) → (external_account_id : String) → Effect S IdentityError (Unit {0})

abbrev pub intent_of : IntentPurpose → TelegramReplyContent → TelegramReplyIntent
intent_of purpose content = record { purpose = purpose; content = content; actions = open_web ∷ [] }

abbrev pub challenge_rejection_reason : ChallengeRejectionError → RejectionReason
challenge_rejection_reason identity_not_found = identity_mismatch
challenge_rejection_reason challenge_consumed = already_used
challenge_rejection_reason challenge_expired = expired
challenge_rejection_reason challenge_not_found = not_found
challenge_rejection_reason already_linked_elsewhere = already_linked
challenge_rejection_reason challenge_mismatch = identity_mismatch

abbrev pub rejected_challenge : ChallengePurpose → ChallengeRejectionError → EventCompletion
rejected_challenge purpose error =
    unscoped_reply
      (intent_of system (challenge_rejected purpose (challenge_rejection_reason error)))

abbrev pub is_consumed : ChallengeRejectionError → Bool
is_consumed challenge_consumed = true
is_consumed _ = false

module _ {S : Type 0} (store : EventStore S) (identity : Identity S) where
  unfoldable pub complete_with :
      ClaimedEvent → EventCompletion → Effect S ProcessError ProcessOutcome
  complete_with c completion =
      store.complete c.claim_id c.inbound_event_id completion >>= λ id. succeed (processed id)

  unfoldable pub release_identity_failure : ClaimedEvent → Effect S ProcessError ProcessOutcome
  release_identity_failure c =
      store.release c.claim_id c.inbound_event_id >> fail identity_resolution_unavailable

  unfoldable pub unless_limited :
      UserLimit → Effect S ProcessError ProcessOutcome → Effect S ProcessError ProcessOutcome
  unless_limited over_limit continue = succeed suppressed
  unless_limited within_limit continue = continue

  unfoldable pub within_user_limit :
      ClaimedEvent
      → Actor
      → Effect S ProcessError ProcessOutcome
      → Effect S ProcessError ProcessOutcome
  within_user_limit c actor continue =
      store.enforce_user_limit c.claim_id c.inbound_event_id actor.user_id >>= λ limit.
      unless_limited limit continue

  unfoldable pub handle_text :
      ClaimedEvent → String → Result IdentityError Actor → Effect S ProcessError ProcessOutcome
  handle_text c text (err identity_unavailable) = release_identity_failure c
  handle_text c text (err (identity_rejected error)) =
      complete_with c (unscoped_reply (intent_of system link_required))
  handle_text c text (ok actor) =
      within_user_limit c actor
        (complete_with c (linked_text_accepted actor text (intent_of reply capture_unavailable)))

  unfoldable pub handle_linked : ClaimedEvent → Actor → Effect S ProcessError ProcessOutcome
  handle_linked c actor =
      within_user_limit c actor
        (complete_with c (scoped_reply actor (intent_of system link_succeeded)))

  -- A link that is used already has succeeded if its account is linked now.
  unfoldable pub handle_link_replay :
      ClaimedEvent
      → ChallengeRejectionError
      → Result IdentityError Actor
      → Effect S ProcessError ProcessOutcome
  handle_link_replay c error (ok actor) = handle_linked c actor
  handle_link_replay c error (err identity_unavailable) = release_identity_failure c
  handle_link_replay c error (err (identity_rejected other)) =
      complete_with c (rejected_challenge link error)

  unfoldable pub handle_link :
      ClaimedEvent → Result IdentityError Actor → Effect S ProcessError ProcessOutcome
  handle_link c (ok actor) = handle_linked c actor
  handle_link c (err identity_unavailable) = release_identity_failure c
  handle_link c (err (identity_rejected error)) =
      if is_consumed error
      then either (identity.resolve_telegram_actor c.external_account_id)
        >>= (λ actor. handle_link_replay c error actor)
      else complete_with c (rejected_challenge link error)

  -- The reply of an unlinking is the prior owner's, if there was one.
  unfoldable pub unlink_completion : Result ChallengeRejectionError Actor → EventCompletion
  unlink_completion (ok actor) = scoped_reply actor (intent_of system unlink_succeeded)
  unlink_completion (err error) = unscoped_reply (intent_of system unlink_succeeded)

  unfoldable pub unlink_rejection :
      Result ChallengeRejectionError Actor → ChallengeRejectionError → EventCompletion
  unlink_rejection (ok actor) error = rejected_challenge unlink error
  unlink_rejection (err prior) error =
      if is_consumed error
      then unscoped_reply (intent_of system unlink_succeeded)
      else rejected_challenge unlink error

  unfoldable pub handle_unlinked :
      ClaimedEvent
      → Result ChallengeRejectionError Actor
      → Result IdentityError (Unit {0})
      → Effect S ProcessError ProcessOutcome
  handle_unlinked c prior (err identity_unavailable) = release_identity_failure c
  handle_unlinked c prior (err (identity_rejected error)) =
      complete_with c (unlink_rejection prior error)
  handle_unlinked c prior (ok _) = complete_with c (unlink_completion prior)

  unfoldable pub consume_unlink_then :
      ClaimedEvent
      → String
      → Result ChallengeRejectionError Actor
      → Effect S ProcessError ProcessOutcome
  consume_unlink_then c digest prior =
      either (identity.consume_unlink digest c.external_account_id) >>= λ unlinked.
      handle_unlinked c prior unlinked

  unfoldable pub handle_unlink :
      ClaimedEvent → String → Result IdentityError Actor → Effect S ProcessError ProcessOutcome
  handle_unlink c digest (err identity_unavailable) = release_identity_failure c
  handle_unlink c digest (err (identity_rejected error)) = consume_unlink_then c digest (err error)
  handle_unlink c digest (ok actor) =
      within_user_limit c actor (consume_unlink_then c digest (ok actor))

  unfoldable pub handle_content : ClaimedEvent → EventContent → Effect S ProcessError ProcessOutcome
  handle_content c (invalid_event_command command) =
      complete_with c
        (unscoped_reply (intent_of system (challenge_rejected command invalid_command)))
  handle_content c (text_content text) =
      either (identity.resolve_telegram_actor c.external_account_id) >>= λ actor.
      handle_text c text actor
  handle_content c (link_command digest) =
      either (identity.consume_link digest c.external_account_id) >>= λ linked. handle_link c linked
  handle_content c (unlink_command digest) =
      either (identity.resolve_telegram_actor c.external_account_id) >>= λ prior.
      handle_unlink c digest prior

  unfoldable pub handle_claim : ClaimEventOutcome → Effect S ProcessError ProcessOutcome
  handle_claim event_duplicate = succeed was_duplicate
  handle_claim event_missing = succeed was_missing
  handle_claim event_rate_limited = succeed suppressed
  handle_claim (event_deferred seconds) = fail (processing_deferred seconds)
  handle_claim (event_claimed c) = handle_content c c.content

  unfoldable pub process_telegram_event : OutboxMessageId → Effect S ProcessError ProcessOutcome
  process_telegram_event outbox = store.claim outbox >>= handle_claim
