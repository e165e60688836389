-- ===== src/Delivery/Tests.antt =====
-- Runs of Telegram delivery on concrete tables: packages/domain/src/channel/deliver-telegram-reply.ts
-- and recover-telegram-delivery.ts.
use xpens_go.Prelude.{List, Option, String, [], arith, none, refl, some, suc, ℕ, ◌∷◌, ◌≡◌, ◌≤◌}
use xpens_go.Delivery.BotApi.{Response, available, send, unreadable}
use xpens_go.Delivery.BotApi.Classification.{
  Decides, WasLost, WasPutOff, is_retried, is_unknown, send_classifies,
}
use xpens_go.Delivery.Checks.{MeetsDeliveryChecks}
use xpens_go.Delivery.Recovery.Resume.{prepare_again}
use xpens_go.Delivery.RecoveryStore.{new_recovery, prepare, prepare_row, refusal}
use xpens_go.Delivery.Reply.{deliver_telegram_reply}
use xpens_go.Delivery.Rows.{DeliveryTables, OutboundMessage, pending, reply_of, terminal_failure}
use xpens_go.Delivery.Store.Claim.{claim, claim_row, retry_after_seconds}
use xpens_go.Delivery.Store.Complete.{close_attempt, close_message, complete_attempt}
use xpens_go.Delivery.System.{Event, begin, call, finish, run, step, take_out}
use xpens_go.Delivery.System.Consistency.{run-MeetsDeliveryChecks}
use xpens_go.Delivery.System.Once.{
  at_rest, calls_within_maximum, no_call_after_visible, sends_of, visible_at_most_once,
  visible_sends,
}
use xpens_go.Delivery.System.Workers.{
  deliver_telegram_reply-schedule, schedule, telegram, worker_store,
}
use xpens_go.Delivery.Types.{
  RecoverTelegramDeliveryInput, TelegramReplyIntent, default_telegram_delivery_policy,
  link_succeeded, outcome_accepted, prepared, ready, recipient_state_corrected, reply,
}
use xpens_go.Effect.{ok}

abbrev greeting : TelegramReplyIntent
greeting = record { purpose = reply; content = link_succeeded; actions = [] }

abbrev fresh_reply : OutboundMessage
fresh_reply = record {
  id = 1;
  external_conversation_id = "42";
  intent = greeting;
  correlation_id = 7;
  status = pending;
  delivery_attempts = 0;
  delivery_claim_id = none;
  delivery_claimed_until = none;
  provider_message_id = none;
  last_error_code = none;
  provider_accepted_at = none;
  terminal_at = none;
}

abbrev one_reply : DeliveryTables
one_reply = record {
  messages = fresh_reply ∷ [];
  attempts = [];
  jobs = record { id = 70; outbound_message_id = 1 } ∷ [];
  recoveries = [];
}

-- Two workers start; the second finds the first one's lease ended, and the first calls too late.
abbrev overlapping : List Event
overlapping =
    begin 11 1000 1000 70 default_telegram_delivery_policy
    ∷ begin 12 70000 70000 70 default_telegram_delivery_policy
    ∷ call 11 (outcome_accepted "m")
    ∷ finish 71000 11
    ∷ []

overlapping-calls : visible_sends 1 (run overlapping (at_rest one_reply)) ≡ 1
unfolding run step take_out claim claim_row retry_after_seconds reply_of complete_attempt
    close_message close_attempt
overlapping-calls = refl

visible_at_most_once_example : visible_sends 1 (run overlapping (at_rest one_reply)) ≤ 1
visible_at_most_once_example =
    visible_at_most_once 1 3 overlapping one_reply (omega arith, (omega arith, (tt, (tt, tt))))
      (omega arith, tt)

calls_within_maximum_example : sends_of 1 (run overlapping (at_rest one_reply)) ≤ 3
calls_within_maximum_example =
    calls_within_maximum 1 3 overlapping one_reply (omega arith, (omega arith, (tt, (tt, tt))))
      (omega arith, tt)

no_call_after_visible_example :
    sends_of 1 (run overlapping (run overlapping (at_rest one_reply)))
    ≡ sends_of 1 (run overlapping (at_rest one_reply))
no_call_after_visible_example =
    no_call_after_visible 1 3 overlapping overlapping one_reply
      (omega arith, (omega arith, (tt, (tt, tt)))) (omega arith, (omega arith, (tt, (tt, tt))))
      (omega arith, tt) (omega (arith, overlapping-calls))

deliver_telegram_reply-schedule_example :
    (deliver_telegram_reply
      (worker_store 11 1000 1000 2000)
      (telegram (ok tt) (ok "m"))
      70
      one_reply).1
    ≡ (run (schedule 11 1000 1000 2000 70 (outcome_accepted "m")) (at_rest one_reply)).tables
deliver_telegram_reply-schedule_example =
    deliver_telegram_reply-schedule 11 1000 1000 2000 70 (ok "m") one_reply

abbrev rejected_reply : OutboundMessage
rejected_reply = record fresh_reply {
  status = terminal_failure;
  delivery_attempts = 1;
  last_error_code = some "chat_not_found";
  terminal_at = some 5;
}

abbrev one_rejected : DeliveryTables
one_rejected = record one_reply { messages = rejected_reply ∷ [] }

abbrev request : RecoverTelegramDeliveryInput
request = record {
  recovery_id = "r";
  outbound_message_id = 1;
  expected_error_code = "chat_not_found";
  reason = recipient_state_corrected;
}

abbrev prepared_tables : DeliveryTables
prepared_tables = record one_reply {
  messages =
      record rejected_reply { status = pending; last_error_code = none; terminal_at = none } ∷ [];
  recoveries = new_recovery request 70 rejected_reply ∷ [];
}

first_preparation : prepare request 3 one_rejected ≡ (ready prepared 70 7, prepared_tables)
unfolding prepare prepare_row refusal
first_preparation = refl

prepare_again_example : prepare request 0 prepared_tables ≡ (ready prepared 70 7, prepared_tables)
prepare_again_example =
    prepare_again request 3 0 one_rejected prepared_tables prepared 70 7 first_preparation

one_reply-MeetsDeliveryChecks : MeetsDeliveryChecks one_reply
one_reply-MeetsDeliveryChecks = record {
  messages = ((refl, refl), tt);
  attempts = tt;
  recoveries = tt;
  message_keys = (refl, tt);
}

run-MeetsDeliveryChecks_example : MeetsDeliveryChecks (run overlapping (at_rest one_reply)).tables
run-MeetsDeliveryChecks_example =
    run-MeetsDeliveryChecks overlapping (at_rest one_reply) one_reply-MeetsDeliveryChecks

abbrev plain_text : ℕ → String
plain_text n = "n"

abbrev bad_gateway : Response
bad_gateway = record { status = 502; body = unreadable }

abbrev failing_fetch : String → TelegramReplyIntent → ℕ → Option Response × ℕ
failing_fetch conversation intent calls = (some bad_gateway, suc calls)

send_classifies_example :
    let answer = send plain_text plain_text available failing_fetch "42" greeting 0 in
    (answer.1 ≡ 1)
    × Decides (is_unknown answer.0) (WasLost (some bad_gateway))
    × Decides (is_retried answer.0) (WasPutOff (some bad_gateway))
send_classifies_example = send_classifies plain_text plain_text failing_fetch "42" greeting 0
