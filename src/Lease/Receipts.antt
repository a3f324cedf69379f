-- ===== src/Lease/Receipts.antt =====
-- What becomes of the receipts through any history of lease operations (leases.py, `fenced_update`).
use bit_cadence.Prelude.{
  Result-cases, ℕ, ◌≡◌, refl, String, Bool, true, false, Option, none, some, List, [], ◌∷◌, arith,
  eq_iff, lookup, lookup-insert, Option-cases, Bool-cases, inl, inr, get_or,
}
use bit_cadence.Board.{Job, Claim, Updates, Receipt, Status, Db, is_renewable}
use bit_cadence.Lease.Claims.{as_claim, rotate_incarnation}
use bit_cadence.Lease.Operations.{
  Fresh, acquire_lease, renew_lease, renew_checked, expire_lease, claim_query,
}
use bit_cadence.Lease.Update.{
  fenced_update, update_found, answer, replay, receipt_for, set_paused, apply_updates, record_write,
  is_nil,
}
use bit_cadence.Lease.Fencing.{claim_query-Proves}
use bit_cadence.Lease.Epochs.{
  Action, acquires, renews, expires, updates, pauses, rotates, act, history, written,
}

-- A claim with a receipt is answered from it, and writes nothing.
pub fenced_update-receipted :
    (f : Fresh) (now : ℕ) (k : String) (c : Claim) (u : Updates) (allowed : Option (Status → Bool))
    (db : Db) (q : Receipt)
    → receipt_for c u db ≡ some q
    → written db (fenced_update f now k c u allowed db) ≡ db
unfolding fenced_update answer replay
fenced_update-receipted f now k c u allowed db q e = elim (Bool-cases (is_nil u.protected)) [
  | inl plain ↦ rw (plain, e) (ground arith)
  | inr barred ↦ rw barred refl
]

module _ (id : String) (q : Receipt) where
  record_write-receipts :
      (now : ℕ) (k : String) (c : Claim) (u : Updates) (j : Job) (db : Db)
      → is_renewable j.status ≡ true
      → receipt_for c u db ≡ none
      → lookup id db.receipts ≡ some q
      → lookup id (record_write now k c u j db).1.receipts ≡ some q
  unfolding record_write apply_updates
  record_write-receipts now k c u j db live unused e =
      let key = get_or "" c.claim_id in
      ground (
        arith,
        eq_iff key id,
        lookup-insert key id (record { claim = c; updates = u; job = apply_updates now u j })
            db.receipts,
      )

  update_found-receipts :
      (f : Fresh) (now : ℕ) (k : String) (c : Claim) (u : Updates)
      (allowed : Option (Status → Bool)) (db : Db) (m : Option Job)
      → receipt_for c u db ≡ none
      → lookup id db.receipts ≡ some q
      → lookup id (written db (update_found f now k c u allowed db m)).receipts ≡ some q
  unfolding update_found
  update_found-receipts f now k c u allowed db none unused e = e
  update_found-receipts f now k c u allowed db (some j) unused e =
      elim (Result-cases (claim_query f db j c)) [
        | inl (d, p) ↦
            let (_, _, _, same) = claim_query-Proves f db d j c p in
            let free : receipt_for c u d ≡ none = rw same unused in
            let kept : lookup id d.receipts ≡ some q = rw same e in
            elim (Bool-cases (is_renewable j.status)) [
              | inl live ↦ ground (arith, record_write-receipts now k c u j d live free kept)
              | inr over ↦ ground arith
            ]
        | inr (x, p) ↦ ground arith
      ]

  fenced_update-receipts :
      (f : Fresh) (now : ℕ) (k : String) (c : Claim) (u : Updates)
      (allowed : Option (Status → Bool)) (db : Db)
      → lookup id db.receipts ≡ some q
      → lookup id (written db (fenced_update f now k c u allowed db)).receipts ≡ some q
  unfolding fenced_update answer
  fenced_update-receipts f now k c u allowed db e = elim (Option-cases (receipt_for c u db)) [
    | inr (p, kept) ↦ rw (fenced_update-receipted f now k c u allowed db p kept) e
    | inl unused ↦ elim (Bool-cases (is_nil u.protected)) [
      | inl plain ↦
          rw (plain, unused)
            (update_found-receipts f now k c u allowed db (lookup k db.jobs) unused e)
      | inr barred ↦ rw barred e
    ]
  ]

  act-receipts :
      (a : Action) (db : Db)
      → lookup id db.receipts ≡ some q
      → lookup id (act a db).receipts ≡ some q
  unfolding act acquire_lease renew_lease expire_lease set_paused rotate_incarnation
  act-receipts (acquires f ttl now k owner) db e = elim (Option-cases (lookup k db.jobs)) [
    | inl gone ↦ ground arith
    | inr (j, there) ↦ ground arith
  ]
  act-receipts (renews f ttl now l) db e = elim (Option-cases (lookup l.job_id db.jobs)) [
    | inl gone ↦ ground arith
    | inr (j, there) ↦ elim (Result-cases (claim_query f db j (as_claim l))) [
      | inl (d, p) ↦
          let (_, _, _, same) = claim_query-Proves f db d j (as_claim l) p in ground arith
      | inr (x, p) ↦ unfold renew_checked in ground arith
    ]
  ]
  act-receipts (expires ttl now seen) db e = elim (Option-cases (lookup seen.id db.jobs)) [
    | inl gone ↦ ground arith
    | inr (j, there) ↦ ground arith
  ]
  act-receipts (updates f now k c u allowed) db e = fenced_update-receipts f now k c u allowed db e
  act-receipts (pauses true) db e = e
  act-receipts (pauses false) db e = e
  act-receipts (rotates identity) db e = e

  -- A receipt stays as it is, whatever is done to the board.
  pub history-receipts :
      (db : Db) (actions : List Action)
      → lookup id db.receipts ≡ some q
      → lookup id (history db actions).receipts ≡ some q
  unfolding history
  history-receipts db [] e = e
  history-receipts db (a ∷ actions) e = history-receipts (act a db) actions (act-receipts a db e)
