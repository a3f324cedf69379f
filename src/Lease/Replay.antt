-- ===== src/Lease/Replay.antt =====
-- A final report is made once (leases.py, the receipts of `fenced_update`).
use bit_cadence.Prelude.{
  Result-cases, err, ok, require, ◌>>◌, ◌⊎◌, inl, inr, Bool-cases, ℕ, ◌≡◌, refl, ◌∙◌, String, Bool,
  true, false, Option, none, some, List, [], ◌∷◌, arith, eq_refl, eq_iff, get_or, truthy, lookup,
  lookup-insert, inl, inr,
}
use bit_cadence.Board.{
  Job, Claim, Updates, Receipt, Status, Db, unknown, same_text_iff, same_number_iff,
}
use bit_cadence.Lease.Claims.{Result, different_result, protected_fields}
use bit_cadence.Lease.Operations.{Fresh, claim_query}
use bit_cadence.Lease.Update.{
  fenced_update, answer, update_found, replay, record_write, apply_updates, Reply, receipt_for,
  same_claim, same_updates, same_status, same_target, same_keys, is_nil, is_final,
}
use bit_cadence.Lease.Fencing.{unprotected}
use bit_cadence.Lease.Epochs.{Action, history}
use bit_cadence.Lease.Receipts.{history-receipts}

same_status_refl : (s : Status) → same_status s s ≡ true
same_status_refl (unknown a) = eq_refl a
same_status_refl _ = refl

same_target_refl : (s : Option Status) → same_target s s ≡ true
same_target_refl none = refl
same_target_refl (some s) = same_status_refl s

same_keys_refl : (ks : List String) → same_keys ks ks ≡ true
same_keys_refl [] = refl
same_keys_refl (k ∷ ks) = ground (arith, eq_refl k, same_keys_refl ks)

same_claim_refl : (c : Claim) → same_claim c c ≡ true
unfolding same_claim
same_claim_refl c = ground (
  arith,
  same_text_iff c.claim_id c.claim_id,
  same_number_iff c.claim_epoch c.claim_epoch,
  same_text_iff c.claim_incarnation c.claim_incarnation,
  same_text_iff c.claim_owner c.claim_owner,
)

same_updates_refl : (u : Updates) → same_updates u u ≡ true
unfolding same_updates
same_updates_refl u = ground (
  arith,
  same_target_refl u.new_status,
  same_text_iff u.new_output u.new_output,
  same_text_iff u.new_error u.new_error,
  same_keys_refl u.protected,
)

module _ (f : Fresh) (now : ℕ) (k : String) (c : Claim) (u : Updates)
    (allowed : Option (Status → Bool)) (db db' : Db) (r : Reply) (named : truthy c.claim_id ≡ true)
    (final : is_final u.new_status ≡ true) (written : r.replayed ≡ false) where
  update_found-receipt :
      (j : Job)
      → update_found f now k c u allowed db (some j) ≡ ok (r, db')
      → (lookup (get_or "" c.claim_id) db'.receipts
          ≡ some (record { claim = c; updates = u; job = r.row }))
        × (r.row.id ≡ j.id)
  unfolding update_found record_write
  update_found-receipt j h = elim (Result-cases (claim_query f db j c)) [
    | inl (d, e) ↦ (
      ground (
        arith,
        eq_refl (get_or "" c.claim_id),
        lookup-insert (get_or "" c.claim_id) (get_or "" c.claim_id)
            (record { claim = c; updates = u; job = apply_updates now u j }) d.receipts,
      ),
      ground arith,
    )
    | inr (x, e) ↦ absurd (ground arith)
  ]

  answer-receipt :
      (o : Option Receipt) (m : Option Job) (j : Job)
      → m ≡ some j
      → lookup k db.jobs ≡ m
      → answer f now k c u allowed db o ≡ ok (r, db')
      → (lookup (get_or "" c.claim_id) db'.receipts
          ≡ some (record { claim = c; updates = u; job = r.row }))
        × (r.row.id ≡ j.id)
  unfolding answer
  answer-receipt (some q) m j s e h = absurd (unfold replay in ground arith)
  answer-receipt none none j s e h = absurd (ground arith)
  answer-receipt none (some i) j s e h =
      let (kept, same) = update_found-receipt i (rw (e, answer) at h) in (kept, ground arith)

plain_keys :
    {A : Type 0} (keys : List String) (m : Result A) {a : A}
    → (require (is_nil keys) protected_fields >> m) ≡ ok a
    → is_nil keys ≡ true
plain_keys [] m h = refl
plain_keys (x ∷ keys) m h = absurd (ground arith)

replay-same_claim :
    (k : String) (c : Claim) (u v : Updates) (row : Job)
    → row.id ≡ k
    → (same_updates u v ≡ true
        → replay k c v (record { claim = c; updates = u; job = row })
          ≡ ok (record { row = row; replayed = true }))
      × (same_updates u v ≡ false
          → replay k c v (record { claim = c; updates = u; job = row }) ≡ err different_result)
unfolding replay
replay-same_claim k c u v row same = (
  λ eq. rw (same_claim_refl c, eq) (ground (arith, eq_iff row.id k)),
  λ ne. rw (same_claim_refl c, ne) (ground arith),
)

-- what a claim with a receipt is answered
fenced_update-replay :
    (f : Fresh) (now : ℕ) (k : String) (c : Claim) (u v : Updates)
    (allowed : Option (Status → Bool)) (db : Db) (row : Job)
    → truthy c.claim_id ≡ true
    → is_final v.new_status ≡ true
    → is_nil v.protected ≡ true
    → row.id ≡ k
    → lookup (get_or "" c.claim_id) db.receipts
      ≡ some (record { claim = c; updates = u; job = row })
    → (same_updates u v ≡ true
        → fenced_update f now k c v allowed db ≡ ok (record { row = row; replayed = true }, db))
      × (same_updates u v ≡ false → fenced_update f now k c v allowed db ≡ err different_result)
unfolding fenced_update answer
fenced_update-replay f now k c u v allowed db row named final plain same kept =
    let (again, refused) = replay-same_claim k c u v row same in
    (
      λ eq. rw (named, final, plain, kept) (rw (again eq) refl),
      λ ne. rw (named, final, plain, kept) (rw (refused ne) refl),
    )

-- A final report by a claim with a lease id is accepted once. Whatever acquisitions, renewals, expiries, worker
-- writes, pauses, resumes and identity rotations are tried after it, by whoever and at whatever times:
-- asked again, the same report is answered with the row that was written and changes nothing, and a
-- different final report by the same claim is refused.
pub fenced_update-once :
    (f g : Fresh) (now now' : ℕ) (k : String) (c : Claim) (u v : Updates)
    (allowed allowed' : Option (Status → Bool)) (db db' : Db) (actions : List Action) (r : Reply)
    (j : Job)
    → fenced_update f now k c u allowed db ≡ ok (r, db')
    → r.replayed ≡ false
    → lookup k db.jobs ≡ some j
    → j.id ≡ k
    → truthy c.claim_id ≡ true
    → is_final u.new_status ≡ true
    → is_final v.new_status ≡ true
    → is_nil v.protected ≡ true
    → let later = history db' actions in
      (fenced_update g now' k c u allowed' later
        ≡ ok (record { row = r.row; replayed = true }, later))
      × ((same_updates u v ≡ true)
          ⊎ (fenced_update g now' k c v allowed' later ≡ err different_result))
unfolding fenced_update
fenced_update-once f g now now' k c u v allowed allowed' db db' actions r j h written e same named
      fu fv plain =
    let (kept, id) =
      answer-receipt f now k c u allowed db db' r named fu written (receipt_for c u db)
        (lookup k db.jobs) j e refl (unprotected u.protected _ h) in
    let later = history db' actions in
    let still = history-receipts (get_or "" c.claim_id) _ db' actions kept in
    (
      (fenced_update-replay g now' k c u u allowed' later r.row named fu
            (plain_keys u.protected _ h) (id ∙ same) still).0
          (same_updates_refl u),
      elim (Bool-cases (same_updates u v)) [
        | inl eq ↦ inl eq
        | inr ne ↦ inr (
            (fenced_update-replay g now' k c u v allowed' later r.row named fv plain (id ∙ same)
                still).1
              ne)
      ],
    )
