-- ===== src/Outbox/Transitions/Laws.antt =====
-- The transitions of a publication claim: what each does on every branch.
use xpens_go.Prelude.{
  ==_iff, All, Bool, Bool-cases, List, Option, Option-cases, [], arith, false, if◌then◌else◌, inl,
  inr, map, none, refl, some, subst, sym, true, ℕ, ◌==◌, ◌∷◌, ◌≡◌,
}
use xpens_go.Effect.{Result, err, ok}
use xpens_go.Outbox.Rows.{
  OutboxMessage, OutboxTables, any_row, is_published, message_id, receipt_id,
}
use xpens_go.Outbox.Transitions.{
  mark_published, owns_claim, record_publication_failure, redeliver, resolve_claim_transition,
  set_failure, set_published,
}
use xpens_go.Outbox.Types.{
  MarkOutboxPublishedInput, OutboxClaimId, OutboxError, OutboxMessageId, OutboxOperation,
  RecordOutboxPublicationFailureInput, mark_outbox_published, persistence_unavailable,
  record_outbox_publication_failure, state_conflict,
}
use xpens_go.Table.{KeepsKey, select}
use xpens_go.Table.Laws.{select-map}

-- Resolving a transition only reads.
pub resolve_claim_transition-tables :
    (operation : OutboxOperation) (id : OutboxMessageId) (updated : Bool) (t : OutboxTables)
    → (resolve_claim_transition operation id updated t).1 ≡ t
unfolding resolve_claim_transition
resolve_claim_transition-tables operation id true t = refl
resolve_claim_transition-tables operation id false t = ground arith

-- A statement that rewrites the rows owning a claim, and keeps their keys.
abbrev pub if_owned :
    OutboxMessageId
    → OutboxClaimId
    → (OutboxMessage → OutboxMessage)
    → OutboxMessage
    → OutboxMessage
if_owned id claim f m = if owns_claim id claim m then f m else m

module _ (id : OutboxMessageId) (claim : OutboxClaimId) (f : OutboxMessage → OutboxMessage)
    (key : KeepsKey message_id f) where
  if_owned-KeepsKey : KeepsKey message_id (if_owned id claim f)
  if_owned-KeepsKey m = ground (arith, key m)

  -- It rewrites the row that owns the claim,
  pub select-if_owned_self :
      (ms : List OutboxMessage) (m : OutboxMessage)
      → select message_id id ms ≡ some m
      → owns_claim id claim m ≡ true
      → select message_id id (map (if_owned id claim f) ms) ≡ some (f m)
  select-if_owned_self ms m e h =
      rw (select-map message_id (if_owned id claim f) if_owned-KeepsKey id ms)
        (ground (arith, e, h))

  -- and no other row.
  pub select-if_owned_other :
      (ms : List OutboxMessage) (k : OutboxMessageId)
      → (k == id) ≡ false
      → select message_id k (map (if_owned id claim f) ms) ≡ select message_id k ms
  unfolding owns_claim
  select-if_owned_other [] k ne = refl
  select-if_owned_other (m ∷ ms) k ne =
      ground (arith, key m, ==_iff m.id k, select-if_owned_other ms k ne)

pub any_row-select :
    (p : OutboxMessage → Bool) (k : OutboxMessageId) (t : List OutboxMessage) (m : OutboxMessage)
    → select message_id k t ≡ some m
    → p m ≡ true
    → any_row p t ≡ true
any_row-select p k [] m e h = cc
any_row-select p k (x ∷ xs) m e h = elim (Bool-cases (x.id == k)) [
  | inl here ↦
      let same : x ≡ m = ground arith in
      let passes : p x ≡ true = subst (λ y. p y ≡ true) (sym same) h in ground arith
  | inr there ↦ ground (arith, any_row-select p k xs m)
]

pub mark_published_owned :
    (now : ℕ) (input : MarkOutboxPublishedInput) (t : OutboxTables) (m : OutboxMessage)
    → select message_id input.outbox_message_id t.messages ≡ some m
    → owns_claim input.outbox_message_id input.claim_id m ≡ true
    → mark_published now input t ≡ (
      ok tt,
      record t {
        messages =
            map (if_owned input.outbox_message_id input.claim_id (set_published now)) t.messages;
      },
    )
unfolding mark_published resolve_claim_transition
mark_published_owned now input t m e h = rw (
    any_row-select (owns_claim input.outbox_message_id input.claim_id) input.outbox_message_id
      t.messages m e h)

pub record_publication_failure_owned :
    (now : ℕ) (input : RecordOutboxPublicationFailureInput) (t : OutboxTables) (m : OutboxMessage)
    → select message_id input.outbox_message_id t.messages ≡ some m
    → owns_claim input.outbox_message_id input.claim_id m ≡ true
    → record_publication_failure now input t ≡ (
      ok tt,
      record t {
        messages =
            map
              (if_owned input.outbox_message_id input.claim_id (set_failure now input))
              t.messages;
      },
    )
unfolding record_publication_failure resolve_claim_transition
record_publication_failure_owned now input t m e h = rw (
    any_row-select (owns_claim input.outbox_message_id input.claim_id) input.outbox_message_id
      t.messages m e h)

any_row-none :
    (p : OutboxMessage → Bool) (t : List OutboxMessage)
    → All (λ m. p m ≡ false) t
    → any_row p t ≡ false
any_row-none p [] h = refl
any_row-none p (m ∷ ms) (here, h) = ground (arith, any_row-none p ms h)

map-if_owned_none :
    (id : OutboxMessageId) (claim : OutboxClaimId) (f : OutboxMessage → OutboxMessage)
    (ms : List OutboxMessage)
    → All (λ m. owns_claim id claim m ≡ false) ms
    → map (if_owned id claim f) ms ≡ ms
map-if_owned_none id claim f [] h = refl
map-if_owned_none id claim f (m ∷ ms) (here, h) =
    ground (arith, here, map-if_owned_none id claim f ms h)

-- The answer to a dispatcher whose claim is gone.
abbrev pub stale_answer :
    OutboxOperation → OutboxMessageId → Option OutboxMessage → Result OutboxError (Unit {0})
stale_answer operation id none = err (persistence_unavailable operation)
stale_answer operation id (some m) =
    if is_published m.status then ok tt else err (state_conflict operation id)

resolve_claim_transition_stale :
    (operation : OutboxOperation) (id : OutboxMessageId) (t : OutboxTables)
    → resolve_claim_transition operation id false t
      ≡ (stale_answer operation id (select message_id id t.messages), t)
unfolding resolve_claim_transition
resolve_claim_transition_stale operation id t =
    elim (Option-cases (select message_id id t.messages)) [
      | inl absent ↦ ground arith
      | inr (m, found) ↦ ground arith
    ]

-- A report under a claim that no row has.
pub stale_reports :
    (now : ℕ) (input : RecordOutboxPublicationFailureInput) (t : OutboxTables)
    → All (λ m. owns_claim input.outbox_message_id input.claim_id m ≡ false) t.messages
    → let id = input.outbox_message_id in
      (mark_published now (record { outbox_message_id = id; claim_id = input.claim_id }) t
        ≡ (stale_answer mark_outbox_published id (select message_id id t.messages), t))
      × (record_publication_failure now input t ≡ (
        stale_answer record_outbox_publication_failure id (select message_id id t.messages),
        t,
      ))
unfolding mark_published record_publication_failure
stale_reports now input t h =
    let id = input.outbox_message_id in
    let none_owned = any_row-none (owns_claim id input.claim_id) t.messages h in
    let marked = map-if_owned_none id input.claim_id (set_published now) t.messages h in
    let failed_rows = map-if_owned_none id input.claim_id (set_failure now input) t.messages h in
    (
      rw (none_owned, marked) (resolve_claim_transition_stale mark_outbox_published id t),
      rw (none_owned, failed_rows)
          (resolve_claim_transition_stale record_outbox_publication_failure id t),
    )

pub redeliver-KeepsKey : (now : ℕ) → KeepsKey receipt_id (redeliver now)
unfolding redeliver
redeliver-KeepsKey now r = refl
