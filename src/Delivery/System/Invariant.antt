-- ===== src/Delivery/System/Invariant.antt =====
-- What a message's row says of its workers and of the calls that the provider got for it, and that
-- every step of packages/adapters/src/postgres/telegram-delivery-store.ts and
-- telegram-delivery-recovery-store.ts keeps it.
use xpens_go.Prelude.{
  ==_iff, ==_sym, Bool, Bool-cases, List, Option, arith, count, false, if◌then◌else◌, inl, inr, leb,
  none, not, refl, some, subst, suc, sym, true, ℕ, ◌+◌, ◌==◌, ◌≡◌, ◌≤◌,
}
use xpens_go.Delivery.RecoveryStore.{refusal, reopen_message}
use xpens_go.Delivery.Rows.{
  DeliveryStatus, OutboundMessage, delivering, message_id, outcome_unknown, pending,
  provider_accepted, terminal_failure,
}
use xpens_go.Delivery.Store.Claim.{
  exhaust_message, expire_message, is_delivering, is_final, start_delivery,
}
use xpens_go.Delivery.Store.Complete.{close_message}
use xpens_go.Delivery.System.{System}
use xpens_go.Delivery.System.Counts.{
  is_answer_for, is_for, is_refusal_for, is_send_for, is_visible_send, may_be_seen,
}
use xpens_go.Delivery.Types.{
  OutboundChannelMessageId, RecoverTelegramDeliveryInput, TelegramDeliveryPolicy,
  TelegramProviderAttemptOutcome, outcome_accepted, outcome_ambiguous, outcome_terminal,
  outcome_transient,
}
use xpens_go.Table.{KeepsKey, select, update}
use xpens_go.Table.Laws.{select-update_ne, select-update_self}

-- No worker is under way, and the provider shows nothing.
abbrev pub is_quiet : DeliveryStatus → Bool
is_quiet pending = true
is_quiet terminal_failure = true
is_quiet _ = false

-- Of one message: its workers before their call, those after it and how many of these the provider
-- refused, the visible calls, and all calls.
pub record Tally : Type 0 where
  pub unsent : ℕ
  pub answers : ℕ
  pub refusals : ℕ
  pub visible : ℕ
  pub sends : ℕ

pub record RowAllows (maximum : ℕ) (m : OutboundMessage) (n : Tally) : Type 0 where
  pub quiet :
      is_quiet m.status ≡ true
      → (n.unsent ≡ 0) × (n.answers ≡ 0) × (n.refusals ≡ 0) × (n.visible ≡ 0)
  pub under_way :
      is_delivering m.status ≡ true
      → (n.unsent + n.answers ≤ 1) × (n.unsent + n.refusals + n.visible ≤ 1)
  pub once : n.unsent + n.visible ≤ 1
  pub counted : n.sends + n.unsent ≤ m.delivery_attempts
  pub limited : m.delivery_attempts ≤ maximum

abbrev pub Allows : ℕ → Option OutboundMessage → Tally → Type 0
Allows maximum none n = (n.unsent ≡ 0) × (n.visible ≡ 0) × (n.sends ≡ 0)
Allows maximum (some m) n = RowAllows maximum m n

abbrev pub tally_of : OutboundChannelMessageId → System → Tally
tally_of k s = record {
  unsent = count (is_for k) s.unsent;
  answers = count (is_answer_for k) s.answers;
  refusals = count (is_refusal_for k) s.answers;
  visible = count (is_visible_send k) s.sends;
  sends = count (is_send_for k) s.sends;
}

abbrev pub IsSafe : OutboundChannelMessageId → ℕ → System → Type 0
IsSafe k maximum s = Allows maximum (select message_id k s.tables.messages) (tally_of k s)

-- A statement that rewrites the row of one message.
pub update-Allows :
    (k maximum : ℕ) (f : OutboundMessage → OutboundMessage) (ms : List OutboundMessage)
    (m : OutboundMessage) (n n' : Tally)
    → KeepsKey message_id f
    → select message_id m.id ms ≡ some m
    → ((m.id == k) ≡ true → RowAllows maximum m n → RowAllows maximum (f m) n')
    → ((m.id == k) ≡ false
        → Allows maximum (select message_id k ms) n
        → Allows maximum (select message_id k ms) n')
    → Allows maximum (select message_id k ms) n
    → Allows maximum (select message_id k (update message_id m.id f ms)) n'
update-Allows k maximum f ms m n n' key found same other h = elim (Bool-cases (m.id == k)) [
  | inl here ↦
      let own = (==_iff m.id k).0 here in
      let at_k : select message_id k ms ≡ some m =
        subst (λ x. select message_id x ms ≡ some m) own found in
      subst (λ x. Allows maximum (select message_id k (update message_id x f ms)) n') (sym own)
        (rw (select-update_self message_id k f key ms, at_k)
          (same here (subst (λ o. Allows maximum o n) at_k h)))
  | inr there ↦
      rw (select-update_ne message_id m.id k f key (ground (arith, ==_sym m.id k)) ms)
        (other there h)
]

pub quiet_status :
    (s : DeliveryStatus) → is_final s ≡ false → is_delivering s ≡ false → is_quiet s ≡ true
quiet_status pending f d = refl
quiet_status delivering f d = cc
quiet_status provider_accepted f d = cc
quiet_status terminal_failure f d = refl
quiet_status outcome_unknown f d = cc

pub expire-Allows :
    (maximum now : ℕ) (m : OutboundMessage) (n : Tally)
    → RowAllows maximum m n
    → RowAllows maximum (expire_message now m) n
expire-Allows maximum now m n h = record {
  quiet = λ e. cc;
  under_way = λ e. cc;
  once = h.once;
  counted = h.counted;
  limited = h.limited;
}

pub exhaust-Allows :
    (maximum now : ℕ) (m : OutboundMessage) (n : Tally)
    → is_quiet m.status ≡ true
    → RowAllows maximum m n
    → RowAllows maximum (exhaust_message now m) n
exhaust-Allows maximum now m n q h = record {
  quiet = λ e. h.quiet q;
  under_way = λ e. cc;
  once = h.once;
  counted = h.counted;
  limited = h.limited;
}

pub start-Allows :
    (maximum attempt now : ℕ) (policy : TelegramDeliveryPolicy) (m : OutboundMessage) (n : Tally)
    → is_quiet m.status ≡ true
    → policy.maximum_attempts ≤ maximum
    → leb policy.maximum_attempts m.delivery_attempts ≡ false
    → RowAllows maximum m n
    → RowAllows maximum (start_delivery attempt now policy m) (record n { unsent = suc n.unsent })
start-Allows maximum attempt now policy m n q bound few h =
    let (u, a, r, v) = h.quiet q in
    record {
      quiet = λ e. cc;
      under_way = λ e. (omega (arith, u, a), omega (arith, u, r, v));
      once = omega (arith, u, v);
      counted = omega (arith, h.counted);
      limited = ground (arith, bound, few);
    }

pub reopen-Allows :
    (maximum : ℕ) (m : OutboundMessage) (n : Tally)
    → is_quiet m.status ≡ true
    → RowAllows maximum m n
    → RowAllows maximum (reopen_message m) n
reopen-Allows maximum m n q h = record {
  quiet = λ e. h.quiet q;
  under_way = λ e. cc;
  once = h.once;
  counted = h.counted;
  limited = h.limited;
}

-- A stored answer: the attempt that it ends was the only one under way.
pub close-Allows :
    (maximum now : ℕ) (outcome : TelegramProviderAttemptOutcome) (m : OutboundMessage)
    (n n' : Tally)
    → is_delivering m.status ≡ true
    → n.answers ≡ suc n'.answers
    → n.refusals ≡ (if not (may_be_seen outcome) then 1 else 0) + n'.refusals
    → n'.unsent ≡ n.unsent
    → n'.visible ≡ n.visible
    → n'.sends ≡ n.sends
    → RowAllows maximum m n
    → RowAllows maximum (close_message now outcome m) n'
unfolding close_message
close-Allows maximum now (outcome_accepted id) m n n' d a r u v s h = record {
  quiet = λ e. cc;
  under_way = λ e. cc;
  once = omega (arith, h.once);
  counted = omega (arith, h.counted);
  limited = h.limited;
}
close-Allows maximum now (outcome_ambiguous code) m n n' d a r u v s h = record {
  quiet = λ e. cc;
  under_way = λ e. cc;
  once = omega (arith, h.once);
  counted = omega (arith, h.counted);
  limited = h.limited;
}
close-Allows maximum now (outcome_transient code) m n n' d a r u v s h =
    let (one, other) = h.under_way d in
    record {
      quiet = λ e. (omega arith, omega arith, omega arith, omega arith);
      under_way = λ e. cc;
      once = omega (arith, h.once);
      counted = omega (arith, h.counted);
      limited = h.limited;
    }
close-Allows maximum now (outcome_terminal code) m n n' d a r u v s h =
    let (one, other) = h.under_way d in
    record {
      quiet = λ e. (omega arith, omega arith, omega arith, omega arith);
      under_way = λ e. cc;
      once = omega (arith, h.once);
      counted = omega (arith, h.counted);
      limited = h.limited;
    }

-- A worker that stops, or whose answer is dropped.
pub drop-Allows :
    (maximum : ℕ) (o : Option OutboundMessage) (n n' : Tally)
    → n'.unsent ≤ n.unsent
    → n'.answers ≤ n.answers
    → n'.refusals ≤ n.refusals
    → n'.visible ≡ n.visible
    → n'.sends ≡ n.sends
    → Allows maximum o n
    → Allows maximum o n'
drop-Allows maximum none n n' u a r v s (nu, nv, ns) = (omega arith, omega arith, omega arith)
drop-Allows maximum (some m) n n' u a r v s h = record {
  quiet =
      λ e. let (nu, na, nr, nv) = h.quiet e in (omega arith, omega arith, omega arith, omega arith);
  under_way = λ e. let (one, other) = h.under_way e in (omega arith, omega arith);
  once = omega (arith, h.once);
  counted = omega (arith, h.counted);
  limited = h.limited;
}

-- A call of the provider.
pub call-Allows :
    (maximum : ℕ) (o : Option OutboundMessage) (n n' : Tally)
    → n.unsent ≡ suc n'.unsent
    → n'.answers ≡ suc n.answers
    → n'.refusals + n'.visible ≡ suc (n.refusals + n.visible)
    → n'.visible ≤ suc n.visible
    → n'.sends ≡ suc n.sends
    → Allows maximum o n
    → Allows maximum o n'
call-Allows maximum none n n' u a rv v s (nu, nv, ns) = absurd (omega arith)
call-Allows maximum (some m) n n' u a rv v s h = record {
  quiet = λ e. absurd (let (nu, na, nr, nv) = h.quiet e in omega arith);
  under_way = λ e. let (one, other) = h.under_way e in (omega arith, omega arith);
  once = omega (arith, h.once);
  counted = omega (arith, h.counted);
  limited = h.limited;
}

-- Only a message that the provider refused may be recovered.
pub recoverable-is_quiet :
    (input : RecoverTelegramDeliveryInput) (limit : ℕ) (m : OutboundMessage)
    → refusal input limit m ≡ none
    → is_quiet m.status ≡ true
unfolding refusal
recoverable-is_quiet input limit m e = ground arith
