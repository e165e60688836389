-- ===== src/Delivery/System/Once.antt =====
-- What the provider is asked for one message, over every schedule of workers, crashes and
-- recoveries: packages/domain/src/channel/deliver-telegram-reply.ts and
-- packages/adapters/src/postgres/telegram-delivery-store.ts.
use xpens_go.Prelude.{
  All, List, Option, Option-cases, [], arith, count, inl, inr, none, refl, some, ℕ, ◌+◌, ◌∷◌, ◌≡◌,
  ◌≤◌,
}
use xpens_go.Delivery.Rows.{DeliveryTables, OutboundMessage, message_id}
use xpens_go.Delivery.Store.Claim.{claim}
use xpens_go.Delivery.System.{
  Event, System, begin, begun, call, crash_answered, crash_unsent, finish, of_answer, of_attempt,
  publish, recover, run, step, take_out,
}
use xpens_go.Delivery.System.Counts.{is_for, is_send_for, is_visible_send, take_out-count}
use xpens_go.Delivery.System.Invariant.{Allows, IsSafe, Tally, tally_of}
use xpens_go.Delivery.System.Schedules.{IsWithin, run-IsSafe, step-IsSafe}
use xpens_go.Delivery.Types.{
  ClaimTelegramReplyOutcome, DeliveryError, OutboundChannelMessageId, claimed, deferred,
  reply_missing, terminal,
}
use xpens_go.Effect.{Result, err, ok}
use xpens_go.Table.{select}
use xpens_go.Table.Laws.{select-All}

-- The tables as they are, with no worker under way and no call seen.
abbrev pub at_rest : DeliveryTables → System
at_rest t = record { tables = t; unsent = []; answers = []; sends = [] }

abbrev pub HasAttempted : ℕ → OutboundMessage → Type 0
HasAttempted maximum m = m.delivery_attempts ≤ maximum

abbrev pub visible_sends : OutboundChannelMessageId → System → ℕ
visible_sends k s = count (is_visible_send k) s.sends

abbrev pub sends_of : OutboundChannelMessageId → System → ℕ
sends_of k s = count (is_send_for k) s.sends

at_rest-Allows :
    (maximum : ℕ) (o : Option OutboundMessage)
    → ((m : OutboundMessage) → o ≡ some m → HasAttempted maximum m)
    → Allows maximum o (record { unsent = 0; answers = 0; refusals = 0; visible = 0; sends = 0 })
at_rest-Allows maximum none b = (refl, refl, refl)
at_rest-Allows maximum (some m) b = record {
  quiet = λ e. (refl, refl, refl, refl);
  under_way = λ e. (omega arith, omega arith);
  once = omega arith;
  counted = omega arith;
  limited = b m refl;
}

at_rest-IsSafe :
    (k maximum : ℕ) (t : DeliveryTables)
    → All (HasAttempted maximum) t.messages
    → IsSafe k maximum (at_rest t)
at_rest-IsSafe k maximum t b =
    at_rest-Allows maximum (select message_id k t.messages)
      (λ m found. select-All message_id (HasAttempted maximum) k t.messages m b found)

Allows-once :
    (maximum : ℕ) (o : Option OutboundMessage) (n : Tally)
    → Allows maximum o n
    → n.unsent + n.visible ≤ 1
Allows-once maximum none n (u, v, s) = omega arith
Allows-once maximum (some m) n h = h.once

Allows-limit :
    (maximum : ℕ) (o : Option OutboundMessage) (n : Tally) → Allows maximum o n → n.sends ≤ maximum
Allows-limit maximum none n (u, v, s) = omega arith
Allows-limit maximum (some m) n h = omega (arith, h.counted, h.limited)

-- Over any schedule of workers, crashes and operator recoveries, at most one call for a message is
-- one that the provider accepted or whose outcome is unknown, as long as no policy and no row has
-- more than `maximum` attempts.
pub visible_at_most_once :
    (k maximum : ℕ) (es : List Event) (t : DeliveryTables)
    → All (IsWithin maximum) es
    → All (HasAttempted maximum) t.messages
    → visible_sends k (run es (at_rest t)) ≤ 1
visible_at_most_once k maximum es t b r =
    let s = run es (at_rest t) in
    omega (
      arith,
      Allows-once maximum (select message_id k s.tables.messages) (tally_of k s)
          (run-IsSafe k maximum es (at_rest t) b (at_rest-IsSafe k maximum t r)),
    )

-- Over any schedule of workers, crashes and operator recoveries, the provider is called for a
-- message at most `maximum` times, the bound of every policy and row: a recovery gives no attempt
-- back.
pub calls_within_maximum :
    (k maximum : ℕ) (es : List Event) (t : DeliveryTables)
    → All (IsWithin maximum) es
    → All (HasAttempted maximum) t.messages
    → sends_of k (run es (at_rest t)) ≤ maximum
calls_within_maximum k maximum es t b r =
    let s = run es (at_rest t) in
    Allows-limit maximum (select message_id k s.tables.messages) (tally_of k s)
      (run-IsSafe k maximum es (at_rest t) b (at_rest-IsSafe k maximum t r))

begun-sends :
    (s : System) (r : Result DeliveryError ClaimTelegramReplyOutcome) (t : DeliveryTables)
    → (begun s (r, t)).sends ≡ s.sends
begun-sends s (ok (claimed c)) t = refl
begun-sends s (ok terminal) t = refl
begun-sends s (ok reply_missing) t = refl
begun-sends s (ok (deferred seconds)) t = refl
begun-sends s (err e) t = refl

-- With no worker of the message before its call, a step adds no call of it.
step-sends :
    (k : ℕ) (e : Event) (s : System)
    → count (is_for k) s.unsent ≡ 0
    → (visible_sends k (step e s) ≡ visible_sends k s) × (sends_of k (step e s) ≡ sends_of k s)
unfolding step
step-sends k (begin attempt clock now outbox policy) s none_left =
    let (r, t) = claim attempt clock now outbox policy s.tables in
    rw (begun-sends s r t) (refl, refl)
step-sends k (call attempt outcome) s none_left =
    elim (Option-cases (take_out (of_attempt attempt) s.unsent)) [
      | inl nobody ↦ rw nobody (refl, refl)
      | inr ((c, rest), found) ↦
          let counted = take_out-count (of_attempt attempt) (is_for k) s.unsent c rest found in
          rw found (ground arith)
    ]
step-sends k (finish now attempt) s none_left =
    elim (Option-cases (take_out (of_answer attempt) s.answers)) [
      | inl nobody ↦ rw nobody (refl, refl)
      | inr ((a, rest), found) ↦ rw found (refl, refl)
    ]
step-sends k (crash_unsent attempt) s none_left =
    elim (Option-cases (take_out (of_attempt attempt) s.unsent)) [
      | inl nobody ↦ rw nobody (refl, refl)
      | inr ((c, rest), found) ↦ rw found (refl, refl)
    ]
step-sends k (crash_answered attempt) s none_left =
    elim (Option-cases (take_out (of_answer attempt) s.answers)) [
      | inl nobody ↦ rw nobody (refl, refl)
      | inr ((a, rest), found) ↦ rw found (refl, refl)
    ]
step-sends k (recover input limit) s none_left = (refl, refl)
step-sends k (publish now id) s none_left = (refl, refl)

run-no_calls :
    (k maximum : ℕ) (es : List Event) (s : System)
    → All (IsWithin maximum) es
    → IsSafe k maximum s
    → 1 ≤ visible_sends k s
    → sends_of k (run es s) ≡ sends_of k s
unfolding run
run-no_calls k maximum [] s b h seen = refl
run-no_calls k maximum (e ∷ es) s (b, bs) h seen =
    let once = Allows-once maximum (select message_id k s.tables.messages) (tally_of k s) h in
    let (same_visible, same_sends) = step-sends k e s (omega arith) in
    let rest =
      run-no_calls k maximum es (step e s) bs (step-IsSafe k maximum e s b h) (omega arith) in
    omega arith

-- After a call that the provider accepted, or whose outcome is unknown, no schedule of workers,
-- crashes and operator recoveries ever calls the provider for that message again, as long as no
-- policy and no row has more than `maximum` attempts.
pub no_call_after_visible :
    (k maximum : ℕ) (es es' : List Event) (t : DeliveryTables)
    → All (IsWithin maximum) es
    → All (IsWithin maximum) es'
    → All (HasAttempted maximum) t.messages
    → 1 ≤ visible_sends k (run es (at_rest t))
    → sends_of k (run es' (run es (at_rest t))) ≡ sends_of k (run es (at_rest t))
no_call_after_visible k maximum es es' t b b' r seen =
    run-no_calls k maximum es' (run es (at_rest t)) b'
      (run-IsSafe k maximum es (at_rest t) b (at_rest-IsSafe k maximum t r)) seen
