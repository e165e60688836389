-- ===== src/Delivery/System/Consistency.antt =====
-- The constraints of the delivery tables over schedules of workers and the operator:
-- packages/adapters/src/postgres/migrations/0009-telegram-processing.ts and
-- 0010-telegram-delivery-recovery.ts.
use xpens_go.Prelude.{List, Option-cases, [], inl, inr, refl, ◌∷◌, ◌≡◌}
use xpens_go.Delivery.Checks.{MeetsDeliveryChecks}
use xpens_go.Delivery.Checks.Operations.{
  claim-MeetsDeliveryChecks, complete_attempt-MeetsDeliveryChecks,
  mark_published-MeetsDeliveryChecks, prepare-MeetsDeliveryChecks,
}
use xpens_go.Delivery.Rows.{DeliveryTables}
use xpens_go.Delivery.Store.Claim.{claim}
use xpens_go.Delivery.System.{
  Event, System, begin, begun, call, crash_answered, crash_unsent, finish, of_answer, of_attempt,
  publish, recover, run, step, take_out,
}
use xpens_go.Delivery.Types.{
  ClaimTelegramReplyOutcome, DeliveryError, claimed, deferred, reply_missing, terminal,
}
use xpens_go.Effect.{Result, err, ok}

begun-tables :
    (s : System) (r : Result DeliveryError ClaimTelegramReplyOutcome) (t : DeliveryTables)
    → (begun s (r, t)).tables ≡ t
begun-tables s (ok (claimed c)) t = refl
begun-tables s (ok terminal) t = refl
begun-tables s (ok reply_missing) t = refl
begun-tables s (ok (deferred seconds)) t = refl
begun-tables s (err e) t = refl

step-MeetsDeliveryChecks :
    (e : Event) (s : System) → MeetsDeliveryChecks s.tables → MeetsDeliveryChecks (step e s).tables
unfolding step
step-MeetsDeliveryChecks (begin attempt clock now outbox policy) s h =
    let (r, t) = claim attempt clock now outbox policy s.tables in
    rw (begun-tables s r t) (claim-MeetsDeliveryChecks attempt clock now outbox policy s.tables h)
step-MeetsDeliveryChecks (call attempt outcome) s h =
    elim (Option-cases (take_out (of_attempt attempt) s.unsent)) [
      | inl nobody ↦ rw nobody h
      | inr ((c, rest), found) ↦ rw found h
    ]
step-MeetsDeliveryChecks (finish now attempt) s h =
    elim (Option-cases (take_out (of_answer attempt) s.answers)) [
      | inl nobody ↦ rw nobody h
      | inr ((a, rest), found) ↦ rw found (
          complete_attempt-MeetsDeliveryChecks now a.claim.attempt_id a.claim.outbound_message_id
            a.outcome s.tables h)
    ]
step-MeetsDeliveryChecks (crash_unsent attempt) s h =
    elim (Option-cases (take_out (of_attempt attempt) s.unsent)) [
      | inl nobody ↦ rw nobody h
      | inr ((c, rest), found) ↦ rw found h
    ]
step-MeetsDeliveryChecks (crash_answered attempt) s h =
    elim (Option-cases (take_out (of_answer attempt) s.answers)) [
      | inl nobody ↦ rw nobody h
      | inr ((a, rest), found) ↦ rw found h
    ]
step-MeetsDeliveryChecks (recover input limit) s h =
    prepare-MeetsDeliveryChecks input limit s.tables h
step-MeetsDeliveryChecks (publish now id) s h = mark_published-MeetsDeliveryChecks now id s.tables h

-- Whatever workers and the operator do on consistent delivery tables, the tables keep the modelled
-- CHECK constraints of messages, attempts and recoveries, and the messages' primary key: no
-- statement fails on one of these.
pub run-MeetsDeliveryChecks :
    (es : List Event) (s : System)
    → MeetsDeliveryChecks s.tables
    → MeetsDeliveryChecks (run es s).tables
unfolding run
run-MeetsDeliveryChecks [] s h = h
run-MeetsDeliveryChecks (e ∷ es) s h =
    run-MeetsDeliveryChecks es (step e s) (step-MeetsDeliveryChecks e s h)
