-- ===== src/Events/Stored.antt =====
-- A processed event has its reply stored: packages/domain/src/channel/process-telegram-event.ts.
use xpens_go.Prelude.{Bool-cases, String, arith, inl, inr, sym, ◌≡◌}
use xpens_go.Delivery.Store.Claim.{claim}
use xpens_go.Delivery.Types.{OutboundChannelMessageId}
use xpens_go.Effect.{Effect, Result, either, err, ok, resume-eq-ok, ◌>>=◌}
use xpens_go.Events.Process.{
  EventStore, Identity, complete_with, consume_unlink_then, handle_claim, handle_content,
  handle_link, handle_link_replay, handle_linked, handle_text, handle_unlink, handle_unlinked,
  is_consumed, process_telegram_event, release_identity_failure, unless_limited, within_user_limit,
}
use xpens_go.Events.Types.{
  Actor, ChallengeRejectionError, ClaimedEvent, EventCompletion, EventContent, IdentityError,
  ProcessError, ProcessOutcome, event_claimed, event_deferred, event_duplicate, event_missing,
  event_rate_limited, identity_rejected, identity_unavailable, invalid_event_command, link_command,
  over_limit, processed, text_content, unlink_command, within_limit,
}
use xpens_go.Outbox.Types.{OutboxMessageId}

module _ {S : Type 0} (store : EventStore S) (identity : Identity S) where
  -- The last thing that was done is a completion of the claimed event, and `id` is its reply.
  abbrev pub IsStored : ClaimedEvent → OutboundChannelMessageId → S → Type 0
  IsStored c id s' =
      (completion : EventCompletion) × (s : S) × (store.complete c.claim_id c.inbound_event_id
          completion s
        ≡ (ok id, s'))

  abbrev EndsStored : ClaimedEvent → Effect S ProcessError ProcessOutcome → Type 0
  EndsStored c m =
      (s s' : S) (id : OutboundChannelMessageId) → m s ≡ (ok (processed id), s') → IsStored c id s'

  bind-EndsStored :
      (c : ClaimedEvent) {A : Type 0} (m : Effect S ProcessError A)
      (f : A → Effect S ProcessError ProcessOutcome)
      → ((a : A) → EndsStored c (f a))
      → EndsStored c (m >>= f)
  bind-EndsStored c m f ends s s' id e =
      let (a, s₁, first, rest) = resume-eq-ok (m s) f e in ends a s₁ s' id rest

  complete_with-EndsStored :
      (c : ClaimedEvent) (completion : EventCompletion)
      → EndsStored c (complete_with store identity c completion)
  unfolding complete_with
  complete_with-EndsStored c completion s s' id e =
      let (made, s₁, stored, rest) =
        resume-eq-ok (store.complete c.claim_id c.inbound_event_id completion s) _ e in
      let same : made ≡ id = cc rest in
      let ending : s₁ ≡ s' = cc rest in (completion, s, rw (sym same, sym ending) stored)

  release-EndsStored : (c : ClaimedEvent) → EndsStored c (release_identity_failure store identity c)
  unfolding release_identity_failure
  release-EndsStored c =
      bind-EndsStored c (store.release c.claim_id c.inbound_event_id) _
        (λ a s s' id e. absurd (ground arith))

  limited-EndsStored :
      (c : ClaimedEvent) (actor : Actor) (continue : Effect S ProcessError ProcessOutcome)
      → EndsStored c continue
      → EndsStored c (within_user_limit store identity c actor continue)
  unfolding within_user_limit unless_limited
  limited-EndsStored c actor continue ends =
      bind-EndsStored c (store.enforce_user_limit c.claim_id c.inbound_event_id actor.user_id) _
        (λ limit. elim limit as (λ l. EndsStored c (unless_limited store identity l continue)) [
          | within_limit ↦ ends
          | over_limit ↦ λ s s' id e. absurd (ground arith)
        ])

  handle_text-EndsStored :
      (c : ClaimedEvent) (text : String) (actor : Result IdentityError Actor)
      → EndsStored c (handle_text store identity c text actor)
  unfolding handle_text
  handle_text-EndsStored c text (err identity_unavailable) = release-EndsStored c
  handle_text-EndsStored c text (err (identity_rejected error)) = complete_with-EndsStored c _
  handle_text-EndsStored c text (ok actor) =
      limited-EndsStored c actor _ (complete_with-EndsStored c _)

  handle_linked-EndsStored :
      (c : ClaimedEvent) (actor : Actor) → EndsStored c (handle_linked store identity c actor)
  unfolding handle_linked
  handle_linked-EndsStored c actor = limited-EndsStored c actor _ (complete_with-EndsStored c _)

  handle_link_replay-EndsStored :
      (c : ClaimedEvent) (error : ChallengeRejectionError) (actor : Result IdentityError Actor)
      → EndsStored c (handle_link_replay store identity c error actor)
  unfolding handle_link_replay
  handle_link_replay-EndsStored c error (ok actor) = handle_linked-EndsStored c actor
  handle_link_replay-EndsStored c error (err identity_unavailable) = release-EndsStored c
  handle_link_replay-EndsStored c error (err (identity_rejected other)) =
      complete_with-EndsStored c _

  handle_link-EndsStored :
      (c : ClaimedEvent) (linked : Result IdentityError Actor)
      → EndsStored c (handle_link store identity c linked)
  unfolding handle_link
  handle_link-EndsStored c (ok actor) = handle_linked-EndsStored c actor
  handle_link-EndsStored c (err identity_unavailable) = release-EndsStored c
  handle_link-EndsStored c (err (identity_rejected error)) = elim (Bool-cases (is_consumed error)) [
    | inl consumed ↦ rw consumed (
        bind-EndsStored c (either (identity.resolve_telegram_actor c.external_account_id)) _
          (λ actor. handle_link_replay-EndsStored c error actor))
    | inr other ↦ rw other (complete_with-EndsStored c _)
  ]

  consume_unlink_then-EndsStored :
      (c : ClaimedEvent) (digest : String) (prior : Result ChallengeRejectionError Actor)
      → EndsStored c (consume_unlink_then store identity c digest prior)
  unfolding consume_unlink_then handle_unlinked
  consume_unlink_then-EndsStored c digest prior =
      bind-EndsStored c (either (identity.consume_unlink digest c.external_account_id)) _
        (λ unlinked.
          elim unlinked as (λ u. EndsStored c (handle_unlinked store identity c prior u)) [
            | ok done ↦ complete_with-EndsStored c _
            | err error ↦
                elim error as (λ e. EndsStored c (handle_unlinked store identity c prior (err e))) [
                  | identity_unavailable ↦ release-EndsStored c
                  | identity_rejected why ↦ complete_with-EndsStored c _
                ]
          ])

  handle_unlink-EndsStored :
      (c : ClaimedEvent) (digest : String) (prior : Result IdentityError Actor)
      → EndsStored c (handle_unlink store identity c digest prior)
  unfolding handle_unlink
  handle_unlink-EndsStored c digest (err identity_unavailable) = release-EndsStored c
  handle_unlink-EndsStored c digest (err (identity_rejected error)) =
      consume_unlink_then-EndsStored c digest (err error)
  handle_unlink-EndsStored c digest (ok actor) =
      limited-EndsStored c actor _ (consume_unlink_then-EndsStored c digest (ok actor))

  handle_content-EndsStored :
      (c : ClaimedEvent) (content : EventContent)
      → EndsStored c (handle_content store identity c content)
  unfolding handle_content
  handle_content-EndsStored c (invalid_event_command command) = complete_with-EndsStored c _
  handle_content-EndsStored c (text_content text) =
      bind-EndsStored c (either (identity.resolve_telegram_actor c.external_account_id)) _
        (λ actor. handle_text-EndsStored c text actor)
  handle_content-EndsStored c (link_command digest) =
      bind-EndsStored c (either (identity.consume_link digest c.external_account_id)) _
        (λ linked. handle_link-EndsStored c linked)
  handle_content-EndsStored c (unlink_command digest) =
      bind-EndsStored c (either (identity.resolve_telegram_actor c.external_account_id)) _
        (λ prior. handle_unlink-EndsStored c digest prior)

  -- An event is reported as processed with a reply only if an event was claimed and the last step
  -- was the store's completion of that event under its claim, which gave that reply.
  pub process-IsStored :
      (outbox : OutboxMessageId) (s s' : S) (id : OutboundChannelMessageId)
      → process_telegram_event store identity outbox s ≡ (ok (processed id), s')
      → (c : ClaimedEvent) × (s₁ : S) × (store.claim outbox s ≡ (ok (event_claimed c), s₁))
        × IsStored c id s'
  unfolding process_telegram_event handle_claim
  process-IsStored outbox s s' id e =
      let (claim, s₁, claimed_now, rest) = resume-eq-ok (store.claim outbox s) _ e in
      elim claim
          as (λ c.
            store.claim outbox s ≡ (ok c, s₁)
            → handle_claim store identity c s₁ ≡ (ok (processed id), s')
            → (c : ClaimedEvent) × (s₁ : S) × (store.claim outbox s ≡ (ok (event_claimed c), s₁))
              × IsStored c id s') [
                | event_claimed c ↦
                    λ got later. (c, s₁, got, handle_content-EndsStored c c.content s₁ s' id later)
                | event_duplicate ↦ λ got later. absurd (ground arith)
                | event_missing ↦ λ got later. absurd (ground arith)
                | event_rate_limited ↦ λ got later. absurd (ground arith)
                | event_deferred seconds ↦ λ got later. absurd (ground arith)
              ]
        claimed_now rest
