-- ===== src/Delivery/Checks/Kept.antt =====
-- The statements of packages/adapters/src/postgres/telegram-delivery-store.ts and
-- telegram-delivery-recovery-store.ts keep the constraints of the delivery tables.
use xpens_go.Prelude.{
  ==_iff, All, All-map, All-zip, Bool-cases, List, Option, String, arith, false, inl, inr, is_none,
  none, refl, some, subst, sym, true, ℕ, ◌==◌, ◌≡◌,
}
use xpens_go.Delivery.Checks.{
  IsCompleted, IsRecorded, IsWhole, MeetsDeliveryChecks, claim_complete, terminal_state_of,
}
use xpens_go.Delivery.RecoveryStore.{publish_recovery, reopen_message}
use xpens_go.Delivery.Rows.{
  DeliveryAttempt, DeliveryRecovery, DeliveryStatus, DeliveryTables, OutboundMessage, attempt_id,
  delivering, message_id, outcome_unknown, pending, provider_accepted, terminal_failure,
}
use xpens_go.Delivery.Store.Claim.{
  exhaust_message, expire_attempt, expire_message, fail_attempt, is_delivering, is_final,
  start_delivery,
}
use xpens_go.Delivery.Store.Complete.{close_attempt, close_message}
use xpens_go.Delivery.System.Invariant.{is_quiet}
use xpens_go.Delivery.Types.{
  ChannelDeliveryAttemptId, TelegramDeliveryPolicy, TelegramProviderAttemptOutcome,
  outcome_accepted, outcome_ambiguous, outcome_terminal, outcome_transient,
}
use xpens_go.Table.{KeepsKey, select, update}
use xpens_go.Table.Laws.{HasUniqueKeys-update, select-own_All, update-All, update-eq-map}

-- A statement on one message keeps them if it does for the row that its key selects.
pub message-kept :
    (f : OutboundMessage → OutboundMessage) (m : OutboundMessage) (t : DeliveryTables)
    (attempts : List DeliveryAttempt) (recoveries : List DeliveryRecovery)
    → KeepsKey message_id f
    → select message_id m.id t.messages ≡ some m
    → (IsWhole m → IsWhole (f m))
    → All IsCompleted attempts
    → All IsRecorded recoveries
    → MeetsDeliveryChecks t
    → MeetsDeliveryChecks (record t {
      messages = update message_id m.id f t.messages;
      attempts = attempts;
      recoveries = recoveries;
    })
message-kept f m t attempts recoveries key found keep a r h = record {
  messages = rw (update-eq-map message_id m.id f t.messages) (
      All-map (λ x. IsWhole x × (select message_id x.id t.messages ≡ some x)) IsWhole _ t.messages
        (λ x (whole, own). elim (Bool-cases (x.id == m.id)) [
          | inr other ↦ rw other whole
          | inl same ↦
              let at_m : select message_id m.id t.messages ≡ some x =
                subst (λ i. select message_id i t.messages ≡ some x) ((==_iff x.id m.id).0 same)
                  own in
              let one : m ≡ x = cc in
              rw same (subst (λ y. IsWhole (f y)) one (keep (subst IsWhole (sym one) whole)))
        ])
        (All-zip IsWhole (λ x. select message_id x.id t.messages ≡ some x)
          (λ x. IsWhole x × (select message_id x.id t.messages ≡ some x)) t.messages
          (λ x p q. (p, q)) h.messages (select-own_All message_id t.messages h.message_keys)));
  attempts = a;
  recoveries = r;
  message_keys = HasUniqueKeys-update message_id m.id f key t.messages h.message_keys;
}

pub fail_attempt-kept :
    (now : ℕ) (claim_id : Option ChannelDeliveryAttemptId) (as' : List DeliveryAttempt)
    → All IsCompleted as'
    → All IsCompleted (expire_attempt now claim_id as')
fail_attempt-kept now none as' h = h
fail_attempt-kept now (some id) as' h =
    update-All attempt_id IsCompleted id (fail_attempt now) as' (λ a p. ground arith) h

pub close_attempt-IsCompleted :
    (now message : ℕ) (outcome : TelegramProviderAttemptOutcome) (a : DeliveryAttempt)
    → IsCompleted a
    → IsCompleted (close_attempt now message outcome a)
unfolding close_attempt
close_attempt-IsCompleted now message outcome a p = ground arith

live_unaccepted :
    (s : DeliveryStatus) (m : OutboundMessage)
    → is_final s ≡ false
    → terminal_state_of s m ≡ true
    → (is_none m.provider_accepted_at ≡ true) × (is_none m.terminal_at ≡ true)
live_unaccepted pending m f h = (ground arith, ground arith)
live_unaccepted delivering m f h = (ground arith, ground arith)
live_unaccepted provider_accepted m f h = cc
live_unaccepted terminal_failure m f h = cc
live_unaccepted outcome_unknown m f h = cc

quiet_unaccepted :
    (s : DeliveryStatus) (m : OutboundMessage)
    → is_quiet s ≡ true
    → terminal_state_of s m ≡ true
    → is_none m.provider_accepted_at ≡ true
quiet_unaccepted pending m q h = ground arith
quiet_unaccepted terminal_failure m q h = ground arith
quiet_unaccepted delivering m q h = cc
quiet_unaccepted provider_accepted m q h = cc
quiet_unaccepted outcome_unknown m q h = cc

delivering-not_final : (s : DeliveryStatus) → is_delivering s ≡ true → is_final s ≡ false
delivering-not_final delivering d = refl
delivering-not_final pending d = refl
delivering-not_final provider_accepted d = cc
delivering-not_final terminal_failure d = cc
delivering-not_final outcome_unknown d = cc

pub close_message-IsWhole :
    (now : ℕ) (outcome : TelegramProviderAttemptOutcome) (m : OutboundMessage)
    → is_delivering m.status ≡ true
    → IsWhole m
    → IsWhole (close_message now outcome m)
unfolding close_message
close_message-IsWhole now (outcome_accepted id) m d p = (refl, refl)
close_message-IsWhole now (outcome_terminal code) m d p = (refl, refl)
close_message-IsWhole now (outcome_ambiguous code) m d p = (refl, refl)
close_message-IsWhole now (outcome_transient code) m d p =
    let (unaccepted, unended) = live_unaccepted m.status m (delivering-not_final m.status d) p.1 in
    (refl, ground (arith, unaccepted, unended))

pub expire_message-IsWhole :
    (now : ℕ) (m : OutboundMessage)
    → is_delivering m.status ≡ true
    → IsWhole m
    → IsWhole (expire_message now m)
expire_message-IsWhole now m d p =
    let (unaccepted, unended) = live_unaccepted m.status m (delivering-not_final m.status d) p.1 in
    (refl, ground (arith, unaccepted))

pub exhaust_message-IsWhole :
    (now : ℕ) (m : OutboundMessage)
    → is_final m.status ≡ false
    → is_delivering m.status ≡ false
    → IsWhole m
    → IsWhole (exhaust_message now m)
exhaust_message-IsWhole now m f d p =
    let (unaccepted, unended) = live_unaccepted m.status m f p.1 in
    let released : claim_complete m ≡ true = p.0 in
    (ground (arith, released), ground (arith, unaccepted))

pub start_delivery-IsWhole :
    (attempt now : ℕ) (policy : TelegramDeliveryPolicy) (m : OutboundMessage)
    → is_final m.status ≡ false
    → IsWhole m
    → IsWhole (start_delivery attempt now policy m)
start_delivery-IsWhole attempt now policy m f p =
    let (unaccepted, unended) = live_unaccepted m.status m f p.1 in
    (refl, ground (arith, unaccepted, unended))

pub reopen_message-IsWhole :
    (m : OutboundMessage) → is_quiet m.status ≡ true → IsWhole m → IsWhole (reopen_message m)
reopen_message-IsWhole m q p = (refl, ground (arith, quiet_unaccepted m.status m q p.1))

pub publish_recovery-IsRecorded :
    (now : ℕ) (id : String) (r : DeliveryRecovery)
    → IsRecorded r
    → IsRecorded (publish_recovery now id r)
publish_recovery-IsRecorded now id r p = ground arith
