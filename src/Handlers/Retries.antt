-- ===== src/Handlers/Retries.antt =====
-- What becomes of a failed job, and what an update that is refused leaves (handlers.py).
use bit_cadence.Prelude.{
  ℕ, ◌≤◌, ◌<◌, ◌≡◌, refl, String, Bool, true, false, Option, none, some, [], ◌∷◌, ◌++◌, arith, ltb,
  lookup, lookup-insert, str_eq, eq_iff, eq_refl, Option-cases, Bool-cases, inl, inr, ◌⊎◌, ok,
  get_or, Result-cases,
}
use bit_cadence.Board.{completed, Db, Job, Status, Claim, Updates, is_failed}
use bit_cadence.Lease.Operations.{Fresh}
use bit_cadence.Lease.Update.{fenced_update, Reply}
use bit_cadence.Handlers.Hub.{Hub, reported, broadcast, note}
use bit_cadence.Handlers.Dependents.{unlock_dependents-opened}
use bit_cadence.Handlers.Turns.{opened}
use bit_cadence.Handlers.Failure.{
  retried_row, escalation, handle_failure, Answer, missing, fenced, updated, handle_job_update,
  after_update, follow_up,
}

-- A failed job is tried again while its budget lasts, and the retry is counted. Once the budget is
-- spent the job stays failed: with an escalation role, a job for it is put on the board, pending,
-- with no budget and no escalation of its own; without one, or with an empty one, nothing changes.
pub handle_failure_lem :
    (fresh : String) (j : Job) (h : Hub)
    → lookup j.id h.db.jobs ≡ some j
    → is_failed j.status ≡ true
    → str_eq fresh j.id ≡ false
    → ((j.retry_count < j.max_retries)
        × (lookup j.id (handle_failure fresh j h).db.jobs ≡ some (retried_row j.retry_count j))
        × (lookup fresh (handle_failure fresh j h).db.jobs ≡ lookup fresh h.db.jobs))
      ⊎ ((role : String) × (j.max_retries ≤ j.retry_count)
          × (j.escalate_to_role ≡ some role)
          × (str_eq role "" ≡ false)
          × (lookup j.id (handle_failure fresh j h).db.jobs ≡ some j)
          × (lookup fresh (handle_failure fresh j h).db.jobs ≡ some (escalation fresh role j)))
      ⊎ ((j.max_retries ≤ j.retry_count)
          × (get_or "" j.escalate_to_role ≡ "")
          × (handle_failure fresh j h ≡ h))
unfolding handle_failure
handle_failure_lem fresh j h e failing new = elim (Bool-cases (ltb j.retry_count j.max_retries)) [
  | inl left ↦ inl (
    ground arith,
    rw (left, e)
        (rw failing (
          ground (
            arith,
            lookup-insert j.id j.id (retried_row j.retry_count j) h.db.jobs,
            eq_refl j.id,
          ))),
    rw (left, e)
        (rw failing (
          ground (
            arith,
            lookup-insert j.id fresh (retried_row j.retry_count j) h.db.jobs,
            eq_iff j.id fresh,
            eq_iff fresh j.id,
          ))),
  )
  | inr spent ↦ elim (Option-cases j.escalate_to_role) [
    | inl nobody ↦ inr (inr (ground arith, rw nobody refl, rw (spent, nobody) refl))
    | inr (role, r) ↦ elim (Bool-cases (str_eq role "")) [
      | inl blank ↦
          inr (inr (ground arith, rw r ((eq_iff role "").0 blank), rw (spent, r) (rw blank refl)))
      | inr named ↦ inr (
          inl (
            role,
            ground arith,
            r,
            named,
            rw (spent, r)
                (rw named
                  (ground (arith, lookup-insert fresh j.id (escalation fresh role j) h.db.jobs))),
            rw (spent, r)
                (rw named (
                  ground (
                    arith,
                    lookup-insert fresh fresh (escalation fresh role j) h.db.jobs,
                    eq_refl fresh,
                  ))),
          ))
    ]
  ]
]

-- the answer of `handle_job_update`
abbrev pub refused : Answer → Bool
refused missing = true
refused (fenced e) = true
refused (updated j again) = false

-- An update that is answered with an error, for a missing field or by the fence, leaves the store
-- as it was.
pub handle_job_update-refused :
    (f : Fresh) (fresh : String) (now : ℕ) (k : String) (c : Claim) (s : Status)
    (output message : Option String) (h : Hub)
    → refused (handle_job_update f fresh now k c s output message h).0 ≡ true
    → (handle_job_update f fresh now k c s output message h).1.db ≡ h.db
unfolding handle_job_update after_update
handle_job_update-refused f fresh now k c s output message h turned_down =
    let u : Updates = record {
      new_status = some s;
      new_output = output;
      new_error = message;
      protected = [];
    } in
    elim (Result-cases (fenced_update f now k c u none h.db)) [
      | inl ((r, db), e) ↦ ground arith
      | inr (x, e) ↦ ground arith
    ]

-- the update that `handle_job_update` hands to `fenced_update`
abbrev pub asked : Status → Option String → Option String → Updates
asked s output message = record {
  new_status = some s;
  new_output = output;
  new_error = message;
  protected = [];
}

completed_update :
    (fresh k k' : String) (h : Hub) (r r' : Reply) (db : Db)
    → (after_update fresh k completed h (ok (r, db))).0 ≡ updated r'.row r'.replayed
    → (r.row ≡ r'.row)
      × (r.replayed ≡ r'.replayed)
      × (lookup k' (after_update fresh k completed h (ok (r, db))).1.db.jobs
          ≡ opened k db.jobs (lookup k' db.jobs))
unfolding after_update follow_up
completed_update fresh k k' h r r' db e = elim (Bool-cases r.replayed) [
  | inl again ↦ (
    ground arith,
    ground arith,
    rw again (
        unlock_dependents-opened k k'
          (record { db = db; notices = h.notices ++ reported k completed ∷ [] })),
  )
  | inr once ↦ (
    ground arith,
    ground arith,
    rw once (
        unlock_dependents-opened k k' (
          note (broadcast "job_updated" r.row ∷ [])
            (record { db = db; notices = h.notices ++ reported k completed ∷ [] }))),
  )
]

-- An accepted report of completion, also one that is a replay, releases the dependents on the board
-- that the fenced write leaves, and touches nothing else of that board.
pub handle_job_update-completed :
    (f : Fresh) (fresh : String) (now : ℕ) (k k' : String) (c : Claim)
    (output message : Option String) (h : Hub) (r : Reply)
    → (handle_job_update f fresh now k c completed output message h).0 ≡ updated r.row r.replayed
    → (db : Db) × (fenced_update f now k c (asked completed output message) none h.db ≡ ok (r, db))
      × (lookup k' (handle_job_update f fresh now k c completed output message h).1.db.jobs
          ≡ opened k db.jobs (lookup k' db.jobs))
unfolding handle_job_update
handle_job_update-completed f fresh now k k' c output message h r e =
    elim (Bool-cases (str_eq k "")) [
      | inl blank ↦ absurd (ground arith)
      | inr named ↦
          elim (Result-cases (fenced_update f now k c (asked completed output message) none h.db)) [
            | inl ((i, db), p) ↦
                let done : (after_update fresh k completed h (ok (i, db))).0
                    ≡ updated r.row r.replayed =
                  ground arith in
                let (row, again, jobs) = completed_update fresh k k' h i r db done in
                (db, ground arith, rw (named, p) jobs)
            | inr (x, p) ↦ absurd (unfold after_update in ground arith)
          ]
    ]
