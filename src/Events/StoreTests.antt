-- ===== src/Events/StoreTests.antt =====
-- Runs of the store of Telegram event processing on concrete tables: packages/adapters/src/postgres/
-- telegram-event-processing-store.ts.
use xpens_go.Prelude.{List, String, [], arith, count, none, refl, some, ◌∷◌, ◌≡◌}
use xpens_go.Delivery.Store.Claim.{claim as claim_reply, retry_after_seconds}
use xpens_go.Delivery.Types.{capture_unavailable, claimed, default_telegram_delivery_policy, reply}
use xpens_go.Effect.{Result, ok, succeed}
use xpens_go.Events.Accept.{
  AcceptError, VerifiedUpdate, accept_telegram_event, has_update, persist, update_duplicate,
  verified_link,
}
use xpens_go.Events.Accept.Once.{Arrival, accept_repeated, accepts, arrivals, events_of, processes}
use xpens_go.Events.Calls.{StoreCall, call, claims, completes, limits, run_calls}
use xpens_go.Events.Checks.{MeetsEventChecks}
use xpens_go.Events.Postgres.{Worker, delivery_tables, postgres_store, processed_is_delivered}
use xpens_go.Events.Process.{
  Identity, complete_with, handle_claim, handle_content, handle_text, intent_of,
  process_telegram_event, unless_limited, within_user_limit,
}
use xpens_go.Events.Rows.{
  EventPayload, EventTables, InboundEvent, awaiting, event_id, is_reply_of, system_scope,
}
use xpens_go.Events.Steps.{insert_reply, rewrite}
use xpens_go.Events.Steps.Admitted.{run_calls-IsWithinLimit}
use xpens_go.Events.Steps.Claims.{WasFree, claim_completes}
use xpens_go.Events.Steps.Consistent.{run_calls-MeetsEventChecks}
use xpens_go.Events.Steps.Final.{settled_stays}
use xpens_go.Events.Steps.Limits.{IsWithinLimit}
use xpens_go.Events.Steps.Once.{IsAnswered, run_calls-IsAnswered}
use xpens_go.Events.Store.Claim.{
  claim, claim_event, claimed_event, default_processing_policy, event_of, is_within_limits,
  suppress_abuse,
}
use xpens_go.Events.Store.Complete.{
  DrawnIds, complete, complete_event, completion_intent, is_refused, owned_event, process_event,
}
use xpens_go.Events.Store.Limit.{enforce_user_limit, limit_event}
use xpens_go.Events.Types.{
  Actor, EventCompletion, event_claimed, linked_text_accepted, text_content,
}
use xpens_go.Events.Windows.{count_event}
use xpens_go.Table.{select}

abbrev hello : EventPayload
hello = record {
  external_account_id = "a";
  external_conversation_id = "42";
  external_message_id = "m";
  occurred_at_millis = 10;
  content = text_content "tea 3";
}

abbrev received : InboundEvent
received = record {
  id = 5;
  external_event_id = "700";
  correlation_id = 7;
  normalized_payload = some hello;
  processing_status = awaiting;
  processing_outcome = none;
  processed_at = none;
  processing_claim_id = none;
  processing_claimed_until = none;
  processing_attempts = 0;
  abuse_checked_at = none;
  abuse_allowed = none;
  user_abuse_checked_at = none;
  user_abuse_allowed = none;
  owner_user_id = none;
  ledger_id = none;
}

abbrev one_event : EventTables
one_event = record {
  events = received ∷ [];
  windows = [];
  commands = [];
  replies = [];
  event_jobs = record { id = 50; inbound_event_id = 5 } ∷ [];
  reply_jobs = [];
}

abbrev some_ids : DrawnIds
some_ids = record { reply_id = 90; job_id = 91 }

abbrev sender : Actor
sender = record { user_id = 1; ledger_id = 2; channel_identity_id = 3 }

abbrev taken_note : EventCompletion
taken_note = linked_text_accepted sender "tea 3" (intent_of reply capture_unavailable)

-- One worker claims, a second takes over when the lease has ended, and both complete.
abbrev two_workers : List StoreCall
two_workers =
    claims 11 1000 1000 default_processing_policy 50
    ∷ claims 12 90000 90000 default_processing_policy 50
    ∷ limits 90010 30 12 5 1
    ∷ completes 90020 some_ids 7 11 5 taken_note
    ∷ completes 90030 some_ids 7 12 5 taken_note
    ∷ []

two_workers-replies : count (is_reply_of 5) (run_calls two_workers one_event).replies ≡ 1
unfolding run_calls call claim claim_event event_of enforce_user_limit limit_event owned_event
    complete complete_event is_refused is_within_limits count_event retry_after_seconds
two_workers-replies = refl

run_calls-IsAnswered_example : IsAnswered 5 (run_calls two_workers one_event)
run_calls-IsAnswered_example = run_calls-IsAnswered 5 two_workers one_event (refl, refl, refl)

fresh_checks : MeetsEventChecks one_event
fresh_checks = record {
  unique = (refl, tt);
  rows = (
    record {
      claim_complete = refl;
      abuse_complete = refl;
      user_abuse_complete = refl;
      state_complete = refl;
    },
    tt,
  );
}

run_calls-MeetsEventChecks_example : MeetsEventChecks (run_calls two_workers one_event)
run_calls-MeetsEventChecks_example = run_calls-MeetsEventChecks two_workers one_event fresh_checks

run_calls-IsWithinLimit_example :
    IsWithinLimit system_scope 60000 300 (run_calls two_workers one_event)
run_calls-IsWithinLimit_example =
    run_calls-IsWithinLimit system_scope 60000 300 two_workers one_event
      (omega arith, (omega arith, (tt, (tt, (tt, tt))))) fresh_checks
      (record { counted = ground arith; limited = ground arith })

abbrev settled_event : InboundEvent
settled_event = suppress_abuse 20 received

abbrev one_settled : EventTables
one_settled = record one_event { events = settled_event ∷ [] }

settled_stays_example :
    select event_id 5 (run_calls two_workers one_settled).events ≡ some settled_event
settled_stays_example = settled_stays two_workers one_settled settled_event refl refl

abbrev claimed_tables : EventTables
claimed_tables = (claim 11 1000 1000 default_processing_policy 50 one_event).1

claim_completes_example :
    (e : InboundEvent) × (p : EventPayload) × (event_of one_event 50 ≡ some (e, p))
    × WasFree 1000 e
    × (claimed_event 11 received hello ≡ claimed_event 11 e p)
    × (complete 2000 some_ids 7 11 5 taken_note claimed_tables ≡ (
      ok 90,
      rewrite e
          (process_event 2000 taken_note)
          (insert_reply some_ids 7 taken_note e p claimed_tables),
    ))
unfolding claim claim_event event_of is_within_limits count_event
claim_completes_example =
    claim_completes 11 1000 1000 2000 7 default_processing_policy 50 some_ids taken_note one_event
      claimed_tables (claimed_event 11 received hello) refl (refl, refl, refl)
      (record { fresh_reply_id = refl; fresh_in_event_jobs = refl; fresh_in_reply_jobs = refl })

-- The lease of the first claim ends, and another worker takes over.
abbrev taken_over : EventTables
taken_over = (claim 12 90000 90000 default_processing_policy 50 claimed_tables).1

abbrev known_sender : Identity (EventTables × Unit {0})
known_sender = record {
  resolve_telegram_actor = λ account. succeed sender;
  consume_link = λ digest account. succeed sender;
  consume_unlink = λ digest account. succeed tt;
}

abbrev one_worker : Worker
one_worker = record {
  drawn_claim = 11;
  clock = 1000;
  claim_time = 1000;
  limit_time = 1010;
  completion_time = 1020;
  ids = some_ids;
  correlation = 7;
}

abbrev processed_state : EventTables × Unit {0}
processed_state =
    (process_telegram_event (postgres_store one_worker) known_sender 50 (one_event, tt)).1

processed_is_delivered_example :
    (e₀ : InboundEvent) × (p₀ : EventPayload) × (event_of one_event 50 ≡ some (e₀, p₀))
    × WasFree 1000 e₀
    × ((claim 11 1000 1000 default_processing_policy 50 one_event).0
        ≡ ok (event_claimed (claimed_event 11 e₀ p₀)))
    × (e : InboundEvent) × (p : EventPayload) × (completion : EventCompletion) × (e.id ≡ e₀.id)
    × (e.normalized_payload ≡ some p)
    × (select event_id e.id processed_state.0.events ≡ some (process_event 1020 completion e))
    × ((claim_reply 31 2000 2000 91 default_telegram_delivery_policy
          (delivery_tables processed_state.0)).0
        ≡ ok (
            claimed (record {
              attempt_id = 31;
              outbound_message_id = 90;
              external_conversation_id = p.external_conversation_id;
              intent = completion_intent completion;
            })))
unfolding process_telegram_event handle_claim handle_content handle_text within_user_limit
    unless_limited complete_with postgres_store claim claim_event event_of is_within_limits
    count_event enforce_user_limit limit_event owned_event complete complete_event is_refused
processed_is_delivered_example =
    processed_is_delivered one_worker known_sender 50 90 (one_event, tt) processed_state 31 2000
      2000 default_telegram_delivery_policy refl (omega arith)

abbrev link_update : VerifiedUpdate
link_update = record {
  update_id = "701";
  external_account_id = "a";
  external_conversation_id = "42";
  external_message_id = "m";
  occurred_at_millis = 20;
  content = verified_link "secret";
}

abbrev digest_of : String → Result AcceptError String
digest_of token = ok "digest"

abbrev accepted_state : EventTables
accepted_state =
    (accept_telegram_event digest_of (record { event = 6; job = 60 }) 8 link_update one_event).1

-- Its job is claimed, and the update is delivered again.
abbrev later_arrivals : List Arrival
later_arrivals =
    processes (claims 13 1000 1000 default_processing_policy 60)
    ∷ accepts (record { event = 7; job = 61 }) 9 link_update
    ∷ []

accept_repeated_example :
    (accept_telegram_event digest_of
        (record { event = 8; job = 62 })
        9
        link_update
        (arrivals digest_of later_arrivals accepted_state)
      ≡ (ok update_duplicate, arrivals digest_of later_arrivals accepted_state))
    × (events_of "701" (arrivals digest_of later_arrivals accepted_state) ≡ 1)
unfolding accept_telegram_event persist has_update
accept_repeated_example =
    accept_repeated digest_of (record { event = 6; job = 60 }) (record { event = 8; job = 62 }) 8 9
      link_update 6 60 later_arrivals one_event accepted_state refl
