-- ===== src/Audit/Records.antt =====
-- What a history of `record_event` leaves passes `verify_chain` (src/mco/orchestrator/audit.py).
use bit_cadence.Prelude.{
  ℕ, ◌≡◌, refl, String, true, false, Option, none, some, List, [], ◌∷◌, length, sym, subst,
}
use bit_cadence.Audit.{Content, Row, Outside, Report, of_job, get_events, record_event}
use bit_cadence.Audit.Verify.{verify_chain, walk}
use bit_cadence.Audit.Chain.{IsSound, Filled, walk-IsChain, by_time-IsChain}
use bit_cadence.Audit.Honest.{Trails, record_event-Trails}

-- A call: the clock, the outbox row that it comes from, and the event.
pub record Call (D : Type 0) : Type 0 where
  pub now : ℕ
  pub outbox_id : Option String
  pub content : Content D

module _ {D : Type 0} (o : Outside D) (key : Option String) where
  -- The table after the calls, in their order; none where one of them raises.
  unfoldable pub record_all : List (Call D) → List (Row D) → Option (List (Row D))
  record_all [] rows = some rows
  record_all (c ∷ cs) rows = elim (record_event o key c.now c.outbox_id c.content rows) [
    | none ↦ none
    | some (good, rows') ↦ record_all cs rows'
  ]

  -- The report on a trail without a fault.
  abbrev pub intact : String → List (Row D) → Report
  intact job events = record {
    job_id = job;
    ok = true;
    count = length events;
    broken_at = none;
    reason = none;
    signed = elim key [ none ↦ false | some k ↦ true ];
  }

  record_all-Trails :
      IsSound o
      → (cs : List (Call D)) (rows : List (Row D)) → Trails o key rows
      → (rows' : List (Row D)) × (record_all cs rows ≡ some rows') × Trails o key rows'
  unfolding record_all
  record_all-Trails sound [] rows h = (rows, refl, h)
  record_all-Trails sound (c ∷ cs) rows h =
      let (good, next, e, trails) =
        record_event-Trails o key sound c.now c.outbox_id c.content rows h in
      let (rows', f, last) = record_all-Trails sound cs next trails in
      (rows', rw (e, record_all) f, last)

  verify_chain-walk :
      (job : String) (events : List (Row D))
      → walk o key 1 "" events ≡ none
      → verify_chain o key job none events ≡ intact job events
  unfolding verify_chain
  verify_chain-walk job events h = rw (h, verify_chain) refl

  -- Every history of record_event calls, with any jobs, any readings of the clock (also where it goes
  -- back) and any outbox rows, goes through without an error, and verify_chain then finds the trail of
  -- every job intact and counts all of its rows.
  pub record_all-intact :
      IsSound o
      → Filled key
      → (cs : List (Call D))
      → (rows : List (Row D)) × (record_all cs [] ≡ some rows)
        × ((job : String)
            → verify_chain o key job none (get_events o job rows) ≡ intact job (of_job job rows))
  unfolding get_events
  record_all-intact sound filled cs =
      let (rows, e, trails) = record_all-Trails sound cs [] (λ job. tt) in
      (
        rows,
        e,
        λ job.
            subst (λ x. verify_chain o key job none x ≡ intact job (of_job job rows))
              (sym (by_time-IsChain o key sound none (of_job job rows) (trails job)))
              (verify_chain-walk job (of_job job rows)
                (walk-IsChain o key sound none (of_job job rows) 1 filled (trails job))),
      )
