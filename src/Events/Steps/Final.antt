-- ===== src/Events/Steps/Final.antt =====
-- A settled event stays as it is, and a claim that was lost does nothing: packages/adapters/src/
-- postgres/telegram-event-processing-store.ts.
use xpens_go.Prelude.{
  ==_iff, Bool-cases, List, Option, [], arith, false, inl, inr, refl, some, subst, sym, true, ◌==◌,
  ◌∙◌, ◌∷◌, ◌≡◌,
}
use xpens_go.Events.Calls.{StoreCall, call, run_calls}
use xpens_go.Events.Rows.{EventTables, InboundEvent, event_id}
use xpens_go.Events.Steps.{
  EventStep, IsRow, admits, allows, completed, gives_up, rejects, resumes, stays, suppresses,
}
use xpens_go.Events.Steps.Calls.{call-EventStep}
use xpens_go.Events.Steps.Consistent.{in_process-unsettled}
use xpens_go.Events.Steps.Limits.{admitted}
use xpens_go.Events.Store.Claim.{ProcessingPolicy, is_settled, start_processing, suppress_abuse}
use xpens_go.Events.Store.Complete.{process_event, release_event}
use xpens_go.Events.Store.Limit.{allow_user, suppress_user}
use xpens_go.Table.{KeepsKey, select, update}
use xpens_go.Table.Laws.{select-update_ne}

abbrev pub IsSettledAs : InboundEvent → List InboundEvent → Type 0
IsSettledAs e events =
    (select event_id e.id events ≡ some e) × (is_settled e.processing_status ≡ true)

update-IsSettledAs :
    (s : InboundEvent) (t : EventTables) (e : InboundEvent) (f : InboundEvent → InboundEvent)
    → IsRow t e
    → KeepsKey event_id f
    → is_settled e.processing_status ≡ false
    → IsSettledAs s t.events
    → IsSettledAs s (update event_id e.id f t.events)
update-IsSettledAs s t e f row keep unsettled (found, settled) = elim (Bool-cases (s.id == e.id)) [
  | inl here ↦
      let own = (==_iff s.id e.id).0 here in
      let same : some s ≡ some e =
        sym found ∙ (subst (λ x. select event_id x t.events ≡ some e) (sym own) row) in
      let status : s.processing_status ≡ e.processing_status = cc same in
      absurd (ground (arith, status))
  | inr there ↦ (select-update_ne event_id e.id s.id f keep there t.events ∙ found, settled)
]

step-IsSettledAs :
    {used : Option ProcessingPolicy} {t t' : EventTables} (s : InboundEvent)
    → EventStep used t t'
    → IsSettledAs s t.events
    → IsSettledAs s t'.events
step-IsSettledAs s stays h = h
step-IsSettledAs {t = t} s (rejects now policy e p row payload unsettled unchecked beyond) h =
    update-IsSettledAs s t e (suppress_abuse now) row (λ r. refl) unsettled h
step-IsSettledAs {t = t} s
      (admits drawn now policy e p with_policy row payload unsettled unchecked within) h =
    update-IsSettledAs s t e (start_processing drawn now policy) row (λ r. refl) unsettled h
step-IsSettledAs {t = t} s (resumes drawn now policy e row unsettled admitted) h =
    update-IsSettledAs s t e (start_processing drawn now policy) row (λ r. refl) unsettled h
step-IsSettledAs {t = t} s (completed now ids correlation completion e p row busy fresh) h =
    update-IsSettledAs s t e (process_event now completion) row (λ r. refl)
      (in_process-unsettled e.processing_status busy) h
step-IsSettledAs {t = t} s (allows now user e row busy undecided) h =
    update-IsSettledAs s t e (allow_user now) row (λ r. refl)
      (in_process-unsettled e.processing_status busy) h
step-IsSettledAs {t = t} s (suppresses now user e row busy undecided) h =
    update-IsSettledAs s t e (suppress_user now) row (λ r. refl)
      (in_process-unsettled e.processing_status busy) h
step-IsSettledAs {t = t} s (gives_up e row busy) h =
    update-IsSettledAs s t e release_event row (λ r. refl)
      (in_process-unsettled e.processing_status busy) h

-- An event that is processed or suppressed keeps its row, as it is, over every sequence of claims,
-- completions, limit checks and releases.
pub settled_stays :
    (cs : List StoreCall) (t : EventTables) (e : InboundEvent)
    → select event_id e.id t.events ≡ some e
    → is_settled e.processing_status ≡ true
    → select event_id e.id (run_calls cs t).events ≡ some e
unfolding run_calls
settled_stays [] t e found settled = found
settled_stays (c ∷ cs) t e found settled =
    let (found', settled') = step-IsSettledAs e (call-EventStep c t) (found, settled) in
    settled_stays cs (call c t) e found' settled'
