-- ===== src/Lease/Update.antt =====
-- Worker writes, receipts and the kill switch (src/mco/orchestrator/leases.py).
use bit_cadence.Prelude.{
  err, ok, require, ◌>>=◌, ◌>>◌, ℕ, ◌+◌, String, Bool, true, false, ◌&&◌, ◌||◌, not, Option, none,
  some, List, [], ◌∷◌, str_eq, if◌then◌else◌, get_or, truthy, lookup, insert, Dict,
}
use bit_cadence.Board.{
  Job, Claim, Db, Status, waiting, needs_approval, pending, leased, in_progress, completed, failed,
  rejected, cancelled, halted, unknown, Updates, Receipt, same_text, same_number, is_renewable,
  is_terminal, is_worker_target, is_final_report, is_completed,
}
use bit_cadence.Lease.Claims.{
  Result, is_expired, epoch_number, protected_fields, different_result, job_not_found,
  terminal_state, illegal_transition, illegal_source, expired_or_halted,
}
use bit_cadence.Lease.Operations.{Fresh, default_ttl, put_job, claim_query}

abbrev pub same_status : Status → Status → Bool
same_status waiting waiting = true
same_status needs_approval needs_approval = true
same_status pending pending = true
same_status leased leased = true
same_status in_progress in_progress = true
same_status completed completed = true
same_status failed failed = true
same_status rejected rejected = true
same_status cancelled cancelled = true
same_status halted halted = true
same_status (unknown a) (unknown b) = str_eq a b
same_status _ _ = false

abbrev pub same_target : Option Status → Option Status → Bool
same_target none none = true
same_target (some a) (some b) = same_status a b
same_target _ _ = false

unfoldable pub same_claim : Claim → Claim → Bool
same_claim a b =
    same_text a.claim_id b.claim_id
    && same_number a.claim_epoch b.claim_epoch
    && same_text a.claim_incarnation b.claim_incarnation
    && same_text a.claim_owner b.claim_owner

abbrev pub same_keys : List String → List String → Bool
same_keys [] [] = true
same_keys (a ∷ ks) (b ∷ bs) = str_eq a b && same_keys ks bs
same_keys _ _ = false

unfoldable pub same_updates : Updates → Updates → Bool
same_updates a b =
    same_target a.new_status b.new_status
    && same_text a.new_output b.new_output
    && same_text a.new_error b.new_error
    && same_keys a.protected b.protected

abbrev pub or_else {ℓ} : {A : Type ℓ} → Option A → Option A → Option A
or_else none b = b
or_else (some a) b = some a

-- The row after the update; the store stamps the time of a completion (localstore.py).
unfoldable pub apply_updates : ℕ → Updates → Job → Job
apply_updates now u j =
    let target = get_or j.status u.new_status in
    record j {
      status = target;
      output_payload = or_else u.new_output j.output_payload;
      error_message = or_else u.new_error j.error_message;
      completed_at =
          if is_completed target then or_else j.completed_at (some now) else j.completed_at;
    }

pub record Reply : Type 0 where
  pub row : Job
  pub replayed : Bool

abbrev pub is_final : Option Status → Bool
is_final none = false
is_final (some s) = is_final_report s

-- the answer to a claim that has already reported
unfoldable pub replay : String → Claim → Updates → Receipt → Result Reply
unfolding same_claim same_updates
replay k c u r =
    if same_claim r.claim c && same_updates r.updates u && str_eq r.job.id k
    then ok (record { row = r.job; replayed = true })
    else err different_result

-- the write, and the receipt of a final one
unfoldable pub record_write : ℕ → String → Claim → Updates → Job → Db → Reply × Db
unfolding apply_updates
record_write now k c u j db =
    let j' : Job = apply_updates now u j in
    let db' : Db = put_job k j' db in
    (
      record { row = j'; replayed = false },
      if truthy c.claim_id && is_final_report j'.status
          then record db' {
            receipts =
                insert (get_or "" c.claim_id) (record { claim = c; updates = u; job = j' })
                  db'.receipts;
          }
          else db',
    )

abbrev pub allows : Option (Status → Bool) → Status → Bool
allows none s = true
allows (some test) s = test s

unfoldable pub update_found :
    Fresh
    → ℕ
    → String
    → Claim
    → Updates
    → Option (Status → Bool)
    → Db
    → Option Job
    → Result (Reply × Db)
unfolding is_expired claim_query record_write
update_found f now k c u allowed db none = err job_not_found
update_found f now k c u allowed db (some j) = do
  require (not (is_terminal j.status)) terminal_state
  require (is_renewable j.status && is_worker_target (get_or j.status u.new_status))
      illegal_transition
  require (allows allowed j.status) illegal_source
  require (not (is_expired default_ttl now j || db.paused)) expired_or_halted
  db' ← claim_query f db j c
  ok (record_write now k c u j db')

-- what receipt the claim has, if the update is final
abbrev pub receipt_for : Claim → Updates → Db → Option Receipt
receipt_for c u db =
    if truthy c.claim_id && is_final u.new_status
    then lookup (get_or "" c.claim_id) db.receipts
    else none

unfoldable pub answer :
    Fresh
    → ℕ
    → String
    → Claim
    → Updates
    → Option (Status → Bool)
    → Db
    → Option Receipt
    → Result (Reply × Db)
unfolding replay update_found
answer f now k c u allowed db none = update_found f now k c u allowed db (lookup k db.jobs)
answer f now k c u allowed db (some r) = do reply ← replay k c u r; ok (reply, db)

abbrev pub is_nil {ℓ} : {A : Type ℓ} → List A → Bool
is_nil [] = true
is_nil (x ∷ xs) = false

unfoldable pub fenced_update :
    Fresh → ℕ → String → Claim → Updates → Option (Status → Bool) → Db → Result (Reply × Db)
unfolding answer
fenced_update f now k c u allowed db = do
  require (is_nil u.protected) protected_fields
  answer f now k c u allowed db (receipt_for c u db)

-- the row that the kill switch leaves; `halt_message` stands for its text
abbrev pub halt_message : String
halt_message = "Halted by operator kill switch"

unfoldable pub halt : Job → Job
halt j =
    if is_renewable j.status
    then record j {
      status = halted;
      lease_epoch = some (epoch_number j.lease_epoch + 1);
      error_message = some halt_message;
    }
    else j

unfoldable pub halt_all : Dict Job → Dict Job
unfolding halt
halt_all [] = []
halt_all ((k, j) ∷ rest) = (k, halt j) ∷ halt_all rest

-- the rows that `set_paused` returns
unfoldable pub halted_rows : Dict Job → List Job
unfolding halt
halted_rows [] = []
halted_rows ((k, j) ∷ rest) =
    let later = halted_rows rest in if is_renewable j.status then halt j ∷ later else later

unfoldable pub set_paused : Bool → Db → List Job × Db
unfolding halt_all halted_rows
set_paused true db = (halted_rows db.jobs, record db { jobs = halt_all db.jobs; paused = true })
set_paused false db = ([], record db { paused = false })
