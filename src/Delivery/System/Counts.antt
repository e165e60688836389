-- ===== src/Delivery/System/Counts.antt =====
-- The workers and provider calls of one message, counted: what the invariant of
-- packages/adapters/src/postgres/telegram-delivery-store.ts is about.
use xpens_go.Prelude.{
  Bool, Bool-cases, List, Option-cases, [], arith, count, false, if◌then◌else◌, inl, inr, not, refl,
  some, true, ◌&&◌, ◌+◌, ◌==◌, ◌∷◌, ◌≡◌,
}
use xpens_go.Delivery.System.{Answered, Send, take_out}
use xpens_go.Delivery.Types.{
  OutboundChannelMessageId, TelegramProviderAttemptOutcome, TelegramReplyClaimed, outcome_accepted,
  outcome_ambiguous, outcome_terminal, outcome_transient,
}

abbrev pub is_for : OutboundChannelMessageId → TelegramReplyClaimed → Bool
is_for k c = c.outbound_message_id == k

abbrev pub is_answer_for : OutboundChannelMessageId → Answered → Bool
is_answer_for k a = is_for k a.claim

-- The provider may show the message to the user: it took it, or nobody knows.
abbrev pub may_be_seen : TelegramProviderAttemptOutcome → Bool
may_be_seen (outcome_accepted _) = true
may_be_seen (outcome_ambiguous _) = true
may_be_seen (outcome_transient _) = false
may_be_seen (outcome_terminal _) = false

abbrev pub is_refusal_for : OutboundChannelMessageId → Answered → Bool
is_refusal_for k a = is_for k a.claim && not (may_be_seen a.outcome)

abbrev pub is_send_for : OutboundChannelMessageId → Send → Bool
is_send_for k s = s.message == k

abbrev pub is_visible_send : OutboundChannelMessageId → Send → Bool
is_visible_send k s = s.message == k && may_be_seen s.outcome

pub take_out-count :
    {A : Type 0} (p q : A → Bool) (xs : List A) (a : A) (rest : List A)
    → take_out p xs ≡ some (a, rest)
    → count q xs ≡ (if q a then 1 else 0) + count q rest
unfolding take_out
take_out-count p q [] a rest e = absurd (ground arith)
take_out-count p q (x ∷ xs) a rest e = elim (Bool-cases (p x)) [
  | inl here ↦ ground arith
  | inr there ↦ elim (Option-cases (take_out p xs)) [
    | inl nobody ↦ absurd (ground arith)
    | inr ((b, others), found) ↦ ground (arith, take_out-count p q xs b others found)
  ]
]

pub take_out-first :
    {A : Type 0} (p : A → Bool) (x : A) (xs : List A)
    → p x ≡ true
    → take_out p (x ∷ xs) ≡ some (x, xs)
unfolding take_out
take_out-first p x xs h = rw h refl
