-- ===== src/Events/Tests.antt =====
-- A run of packages/domain/src/channel/process-telegram-event.ts with services that count their calls.
use xpens_go.Prelude.{refl, suc, ℕ, ◌≡◌}
use xpens_go.Effect.{ok}
use xpens_go.Events.Process.{
  EventStore, Identity, complete_with, handle_claim, handle_content, handle_text,
  process_telegram_event, unless_limited, within_user_limit,
}
use xpens_go.Events.Stored.{IsStored, process-IsStored}
use xpens_go.Events.Types.{
  Actor, ClaimedEvent, event_claimed, processed, text_content, within_limit,
}

abbrev event : ClaimedEvent
event = record {
  claim_id = 4;
  inbound_event_id = 5;
  external_account_id = "42";
  content = text_content "coffee 3";
}

abbrev event_store : EventStore ℕ
event_store = record {
  claim = λ outbox calls. (ok (event_claimed event), suc calls);
  complete = λ claim_id inbound completion calls. (ok 7, suc calls);
  enforce_user_limit = λ claim_id inbound user calls. (ok within_limit, suc calls);
  release = λ claim_id inbound calls. (ok tt, suc calls);
}

abbrev known_actor : Actor
known_actor = record { user_id = 1; ledger_id = 2; channel_identity_id = 3 }

abbrev identities : Identity ℕ
identities = record {
  resolve_telegram_actor = λ account calls. (ok known_actor, suc calls);
  consume_link = λ digest account calls. (ok known_actor, suc calls);
  consume_unlink = λ digest account calls. (ok tt, suc calls);
}

text_run : process_telegram_event event_store identities 9 0 ≡ (ok (processed 7), 4)
unfolding process_telegram_event handle_claim handle_content handle_text within_user_limit
    unless_limited complete_with
text_run = refl

process-IsStored_example :
    (c : ClaimedEvent) × (calls : ℕ) × (event_store.claim 9 0 ≡ (ok (event_claimed c), calls))
    × IsStored event_store identities c 7 4
process-IsStored_example = process-IsStored event_store identities 9 0 4 7 text_run
