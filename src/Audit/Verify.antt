-- ===== src/Audit/Verify.antt =====
-- The checking of a trail, and checkpoints of it (src/mco/orchestrator/audit.py).
use bit_cadence.Prelude.{
  ℕ, suc, ◌-◌, ◌%◌, String, Bool, true, false, Option, none, some, List, [], ◌∷◌, length,
  if◌then◌else◌, get_or, is_some, str_eq, ◌==◌, ltb, not, ◌&&◌,
}
use bit_cadence.Audit.{
  Row, Outside, Report, Reason, Head, Checkpoint, with_time, last_or, hash_of, row_at, material,
  content_of, compute_hash, sign, get_events, is_hash, prev_mismatch, invalid_timestamp,
  content_mismatch, signature_mismatch, bad_checkpoint, deleted_tail, head_differs,
}

module _ {D : Type 0} (o : Outside D) where
  -- The older encoding, for a time of whole seconds.
  unfoldable pub legacy_hash : String → Row D → Option String
  legacy_hash prev r = elim (o.instant r.content.created_at) [
    | none ↦ none
    | some t ↦
        if (t % 1000000) == 0
        then some (o.sha256 (material prev (o.canonical (with_time r.content (o.seconds t)))))
        else none
  ]

  unfoldable pub has_signature : Option String → Row D → Bool
  has_signature none r = true
  has_signature (some key) r =
      not (str_eq r.signature "") && str_eq r.signature (get_or "" (sign o r.hash (some key)))

  -- What is wrong with the row, if anything.
  unfoldable pub row_fault : Option String → String → Row D → Option Reason
  row_fault key expected r =
      if not (str_eq r.prev_hash expected) then some prev_mismatch else elim (content_of o r) [
        | none ↦ some invalid_timestamp
        | some c ↦
            if not (is_hash (compute_hash o r.prev_hash c) r.hash)
              && not (is_hash (legacy_hash r.prev_hash r) r.hash)
            then some content_mismatch
            else if not (has_signature key r)
            then some signature_mismatch
            else none
      ]

  -- The loop of verify_chain: the first bad row by its number, and what is wrong with it.
  unfoldable pub walk : Option String → ℕ → String → List (Row D) → Option (ℕ × Reason)
  walk key idx expected [] = none
  walk key idx expected (r ∷ rs) = elim (row_fault key expected r) [
    | some reason ↦ some (idx, reason)
    | none ↦ walk key (suc idx) r.hash rs
  ]

  unfoldable pub checkpoint_fault :
      Option String → String → List (Row D) → Checkpoint → Option Reason
  checkpoint_fault key job events cp =
      if not (
        is_some (sign o (o.canonical_head cp.head) key)
        && str_eq cp.signature (get_or "" (sign o (o.canonical_head cp.head) key)))
      then some bad_checkpoint
      else if not (str_eq cp.head.job_id job)
      then some deleted_tail
      else if ltb (length events) cp.head.count
      then some deleted_tail
      else if not (cp.head.count == 0)
          && not (str_eq (hash_of (row_at (cp.head.count - 1) events)) cp.head.head_hash)
      then some head_differs
      else none

  abbrev pub checked_against :
      Option String → String → List (Row D) → Option Checkpoint → Option Reason
  checked_against key job events none = none
  checked_against key job events (some cp) = checkpoint_fault key job events cp

  unfoldable pub verify_chain : Option String → String → Option Checkpoint → List (Row D) → Report
  verify_chain key job cp events =
      let report = λ (good : Bool) (at : Option ℕ) (why : Option Reason).
        let r : Report = record {
          job_id = job;
          ok = good;
          count = length events;
          broken_at = at;
          reason = why;
          signed = elim key [ none ↦ false | some k ↦ true ];
        } in
        r in
      elim (walk key 1 "" events) [
        | some fault ↦ report false (some fault.0) (some fault.1)
        | none ↦ elim (checked_against key job events cp) [
          | some why ↦ report false none (some why)
          | none ↦ report true none none
        ]
      ]

  -- None without a key: a RuntimeError.
  unfoldable pub make_checkpoint : Option String → String → List (Row D) → Option Checkpoint
  make_checkpoint key job rows =
      let events = get_events o job rows in
      let head : Head = record {
        job_id = job;
        count = length events;
        head_hash = hash_of (last_or none events);
      } in
      elim (sign o (o.canonical_head head) key) [
        | none ↦ none
        | some s ↦ some (record { head = head; signature = s })
      ]
