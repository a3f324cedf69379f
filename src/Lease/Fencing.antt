-- ===== src/Lease/Fencing.antt =====
-- No worker write without the proof of the current attempt.
use bit_cadence.Prelude.{
  Result-cases, ok, require, ◌>>◌, ℕ, ◌≡◌, refl, String, Bool, true, false, Option, none, some,
  arith, eq_refl, get_or, lookup, lookup-insert, Option-cases, inl, inr, List, [], ◌∷◌, ◌∙◌,
}
use bit_cadence.Board.{Job, Claim, Db, Status, Updates, Receipt, is_renewable, is_worker_target}
use bit_cadence.Lease.Claims.{
  Lease, Result, check_claim, is_expired, store_incarnation, Proves, check_claim-Proves,
  protected_fields,
}
use bit_cadence.Lease.Operations.{
  Fresh, default_ttl, claim_query, acquire_lease, granted, expire_lease, requeued,
}
use bit_cadence.Lease.Update.{
  fenced_update, update_found, answer, replay, Reply, record_write, apply_updates, receipt_for,
  is_nil,
}

pub claim_query-Proves :
    (f : Fresh) (db db' : Db) (j : Job) (c : Claim)
    → claim_query f db j c ≡ ok db'
    → Proves (store_incarnation f.new_incarnation db).0 j c
      × (db'.jobs ≡ db.jobs)
      × (db'.paused ≡ db.paused)
      × (db'.receipts ≡ db.receipts)
unfolding claim_query
claim_query-Proves f db db' j c h =
    let (current, stored) = store_incarnation f.new_incarnation db in
    elim (Result-cases (check_claim current j c)) [
      | inl (u, e) ↦
          (check_claim-Proves current j c (ground arith), ground arith, ground arith, ground arith)
      | inr (x, e) ↦ absurd (ground arith)
    ]

-- What a worker write that is accepted shows of the row that it wrote.
pub record Owns (f : Fresh) (now : ℕ) (c : Claim) (u : Updates) (db : Db) (j : Job) : Type 0 where
  pub proof : Proves (store_incarnation f.new_incarnation db).0 j c
  pub live : is_renewable j.status ≡ true
  pub target : is_worker_target (get_or j.status u.new_status) ≡ true
  pub unexpired : is_expired default_ttl now j ≡ false
  pub running : db.paused ≡ false

update_found-Owns :
    (f : Fresh) (now : ℕ) (k : String) (c : Claim) (u : Updates) (allowed : Option (Status → Bool))
    (db db' : Db) (j : Job) (r : Reply)
    → update_found f now k c u allowed db (some j) ≡ ok (r, db')
    → Owns f now c u db j × (r.row ≡ apply_updates now u j) × (lookup k db'.jobs ≡ some r.row)
unfolding update_found record_write
update_found-Owns f now k c u allowed db db' j r h = elim (Result-cases (claim_query f db j c)) [
  | inl (d, e) ↦ (
    record {
      proof = (claim_query-Proves f db d j c e).0;
      live = ground arith;
      target = ground arith;
      unexpired = ground arith;
      running = ground arith;
    },
    ground arith,
    ground (arith, lookup-insert k k (apply_updates now u j) d.jobs, eq_refl k),
  )
  | inr (x, e) ↦ absurd (ground arith)
]

module _ (f : Fresh) (now : ℕ) (k : String) (c : Claim) (u : Updates)
    (allowed : Option (Status → Bool)) (db db' : Db) (r : Reply) where
  WrittenFrom : Type 0
  WrittenFrom =
      (j : Job) × (lookup k db.jobs ≡ some j)
      × Owns f now c u db j
      × (r.row ≡ apply_updates now u j)
      × (lookup k db'.jobs ≡ some r.row)

  answer-WrittenFrom :
      (o : Option Receipt) (m : Option Job)
      → lookup k db.jobs ≡ m
      → answer f now k c u allowed db o ≡ ok (r, db')
      → r.replayed ≡ false
      → WrittenFrom
  unfolding answer WrittenFrom
  answer-WrittenFrom none none e h original = absurd (unfold update_found in ground arith)
  answer-WrittenFrom none (some j) e h original =
      let (owns, row, stored) =
        update_found-Owns f now k c u allowed db db' j r (rw (e, answer) at h) in
      (j, e, owns, row, stored)
  answer-WrittenFrom (some q) m e h original = absurd (unfold replay in ground arith)

pub unprotected :
    {A : Type 0} (keys : List String) (m : Result A) {a : A}
    → (require (is_nil keys) protected_fields >> m) ≡ ok a
    → m ≡ ok a
unprotected [] m h = h
unprotected (x ∷ keys) m h = absurd (ground arith)

pub answer-unreplayed :
    (f : Fresh) (now : ℕ) (k : String) (c : Claim) (u : Updates) (allowed : Option (Status → Bool))
    (db db' : Db) (r : Reply) (m : Option Job)
    → update_found f now k c u allowed db m ≡ ok (r, db')
    → r.replayed ≡ false
unfolding update_found record_write
answer-unreplayed f now k c u allowed db db' r none h = absurd (ground arith)
answer-unreplayed f now k c u allowed db db' r (some j) h =
    elim (Result-cases (claim_query f db j c)) [
      | inl (d, e) ↦ ground arith
      | inr (x, e) ↦ absurd (ground arith)
    ]

-- A worker write that is accepted, and is no replay, was made to a job that is there, is leased or in
-- progress, has not expired, and is not halted by a pause; its claim names the holder and, unless the row
-- predates leases, the current lease id, epoch and store identity; the target is one that a
-- worker may set; and the store then holds exactly the updated row.
pub fenced_update-Owns :
    (f : Fresh) (now : ℕ) (k : String) (c : Claim) (u : Updates) (allowed : Option (Status → Bool))
    (db db' : Db) (r : Reply)
    → fenced_update f now k c u allowed db ≡ ok (r, db')
    → r.replayed ≡ false
    → (j : Job) × (lookup k db.jobs ≡ some j)
      × Owns f now c u db j
      × (r.row ≡ apply_updates now u j)
      × (lookup k db'.jobs ≡ some r.row)
unfolding fenced_update WrittenFrom
fenced_update-Owns f now k c u allowed db db' r h original =
    answer-WrittenFrom f now k c u allowed db db' r (receipt_for c u db) (lookup k db.jobs) refl
      (unprotected u.protected _ h) original

-- One owner per attempt: as long as the row of a job that was just acquired is as the acquisition left
-- it, nobody acquires it again, at any time, whatever has become of the rest of the store since: its
-- other rows, its receipts, its pause and its identity.
pub acquire_lease-exclusive :
    (f g : Fresh) (ttl ttl' now now' : ℕ) (k owner other : String) (db db' later : Db) (l : Lease)
    → acquire_lease f ttl now k owner db ≡ (some l, db')
    → lookup k later.jobs ≡ lookup k db'.jobs
    → acquire_lease g ttl' now' k other later ≡ (none, later)
unfolding acquire_lease
acquire_lease-exclusive f g ttl ttl' now now' k owner other db db' later l h same =
    elim (Option-cases (lookup k db.jobs)) [
      | inl e ↦ absurd (ground arith)
      | inr (j, e) ↦
          let (current, stored) = store_incarnation f.new_incarnation db in
          let i : Job = granted f current ttl now owner j in
          let row : lookup k later.jobs ≡ some i =
            same ∙ ground (arith, eq_refl k, lookup-insert k k i stored.jobs) in
          ground (arith, row)
    ]

-- Two reapers that saw the same attempt: the second finds it requeued and changes nothing.
pub expire_lease-once :
    (ttl ttl' now now' : ℕ) (seen : Job) (db db' : Db)
    → expire_lease ttl now seen db ≡ (true, db')
    → expire_lease ttl' now' seen db' ≡ (false, db')
unfolding expire_lease
expire_lease-once ttl ttl' now now' seen db db' h = elim (Option-cases (lookup seen.id db.jobs)) [
  | inl e ↦ absurd (ground arith)
  | inr (j, e) ↦ ground (arith, eq_refl seen.id, lookup-insert seen.id seen.id (requeued j) db.jobs)
]
