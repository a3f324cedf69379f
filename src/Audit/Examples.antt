-- ===== src/Audit/Examples.antt =====
-- Tests of the audit trail, and its theorems at concrete inputs.
use Prim.Native.String.{count}
use bit_cadence.Prelude.{
  Option, ℕ, zero, suc, ◌≡◌, refl, ap, String, none, some, List, [], ◌∷◌, ◌⊎◌, str_eq, leb,
  if◌then◌else◌, Bool-cases, inl, inr,
}
use bit_cadence.Audit.{
  Content, Row, Outside, Checkpoint, of_job, get_events, record_event, append_event, last_event,
  last_or, timely, moved, sealed, compute_hash, canonical_timestamp, content_of, sign, place,
  by_time,
}
use bit_cadence.Audit.Verify.{
  verify_chain, make_checkpoint, row_fault, has_signature, legacy_hash, walk, checkpoint_fault,
}
use bit_cadence.Audit.Chain.{IsSound}
use bit_cadence.Audit.Records.{Call, record_all, intact, record_all-intact}
use bit_cadence.Audit.Honest.{Trails}
use bit_cadence.Audit.Outbox.{Entry, drain_outbox, write_pending, AllRecorded, drain_outbox-once}
use bit_cadence.Audit.Checkpoints.{take, verify_chain-unchanged}
use bit_cadence.Audit.Tamper.{Alike, Clash}

-- a time as that many marks
marks : ℕ → String
marks zero = String.[]
marks (suc n) = String.◌∷◌ "x" (marks n)

size : String → ℕ
size String.[] = 0
size (String.◌∷◌ c s) = suc (size s)

size-marks : (n : ℕ) → size (marks n) ≡ n
unfolding marks size
size-marks zero = refl
size-marks (suc n) = ap suc (size-marks n)

-- Digests of one character, and contents that are their own text.
digest : String → String
digest s = if str_eq s "\nlease" then "a" else "b"

count-digest : (s : String) → count (digest s) ≡ 1
unfolding digest
count-digest s = elim (Bool-cases (str_eq s "\nlease")) [
  | inl same ↦ rw same refl
  | inr other ↦ rw other refl
]

abbrev python : Outside String
python = record {
  sha256 = digest;
  hmac = λ key text. "s";
  canonical = λ c. c.event;
  canonical_head = λ h. h.head_hash;
  instant = λ s. some (size s);
  micro = marks;
  seconds = marks;
  text_le = λ a b. leb (size a) (size b);
}

python-IsSound : IsSound python
python-IsSound = record {
  reads = λ t. ap some (size-marks t);
  ordered = λ s t. rw (size-marks s, size-marks t) refl;
  filled = λ key text. refl;
}

abbrev event : String → String → Content String
event job name = record {
  job_id = job;
  event = name;
  actor_id = none;
  actor_role = none;
  detail = "";
  created_at = "";
}

-- The clock goes back between the events of the first job.
abbrev calls : List (Call String)
calls =
    record { now = 3; outbox_id = none; content = event "j" "lease" }
    ∷ record { now = 4; outbox_id = none; content = event "k" "create" }
    ∷ record { now = 1; outbox_id = some "o"; content = event "j" "done" }
    ∷ record { now = 5; outbox_id = some "o"; content = event "j" "done" }
    ∷ []

abbrev table : List (Row String)
table = elim (record_all python (some "key") calls []) [ none ↦ [] | some rows ↦ rows ]

abbrev times : List (Row String) → List ℕ
times [] = []
times (r ∷ rs) = size r.content.created_at ∷ times rs

abbrev edited : List (Row String)
edited = elim (get_events python "j" table) [
  | [] ↦ []
  | r ∷ rs ↦ record r { content = event "j" "create" } ∷ rs
]

times-table : times (of_job "j" table) ≡ 3 ∷ 4 ∷ []
unfolding record_all record_event append_event last_event last_or timely moved sealed compute_hash
    canonical_timestamp content_of sign place by_time row_fault has_signature legacy_hash walk
    checkpoint_fault verify_chain make_checkpoint get_events marks size digest
times-table = refl

-- An edited row is found, by its number.
verify_chain-edited : (verify_chain python (some "key") "j" none edited).broken_at ≡ some 1
unfolding record_all record_event append_event last_event last_or timely moved sealed compute_hash
    canonical_timestamp content_of sign place by_time row_fault has_signature legacy_hash walk
    checkpoint_fault verify_chain make_checkpoint get_events marks size digest
verify_chain-edited = refl

record_all-intact_example :
    (rows : List (Row String)) × (record_all python (some "key") calls [] ≡ some rows)
    × ((job : String)
        → verify_chain python (some "key") job none (get_events python job rows)
          ≡ intact python (some "key") job (of_job job rows))
record_all-intact_example = record_all-intact python (some "key") python-IsSound refl calls

abbrev head_kept : Checkpoint
head_kept = record { head = record { job_id = "j"; count = 2; head_hash = "b" }; signature = "s" }

make_checkpoint-table : make_checkpoint python (some "key") "j" table ≡ some head_kept
unfolding record_all record_event append_event last_event last_or timely moved sealed compute_hash
    canonical_timestamp content_of sign place by_time make_checkpoint get_events marks size digest
make_checkpoint-table = refl

verify_chain-unchanged_example :
    Alike python (get_events python "j" table) (take 2 (get_events python "j" table))
    ⊎ Clash python (get_events python "j" table) (take 2 (get_events python "j" table))
unfolding record_all record_event append_event last_event last_or timely moved sealed compute_hash
    canonical_timestamp content_of sign place by_time row_fault has_signature legacy_hash walk
    checkpoint_fault verify_chain make_checkpoint get_events marks size digest
verify_chain-unchanged_example =
    verify_chain-unchanged python python-IsSound 1 (some "key") "j" table
      (get_events python "j" table) head_kept count-digest refl refl refl

abbrev outbox : List (Entry String)
outbox =
    record { id = "o1"; job_id = "j"; event = "create"; detail = "" }
    ∷ record { id = "o2"; job_id = "j"; event = "lease"; detail = "" }
    ∷ []

abbrev number_of : Option (ℕ × List (Row String)) → ℕ
number_of none = 0
number_of (some (n, rows)) = n

drain_outbox-both : number_of (drain_outbox python none (λ id. 7) outbox []) ≡ 2
unfolding drain_outbox write_pending record_event append_event last_event last_or timely moved
    sealed compute_hash canonical_timestamp content_of sign place by_time get_events marks size
    digest
drain_outbox-both = refl

drain_outbox-once_example :
    (n : ℕ) × (after : List (Row String)) × (drain_outbox python none (λ id. 7) outbox []
      ≡ some (n, after))
    × AllRecorded outbox after
    × Trails python none after
    × ((later : String → ℕ) → drain_outbox python none later outbox after ≡ some (0, after))
drain_outbox-once_example =
    drain_outbox-once python none (λ id. 7) python-IsSound outbox []
      ((refl, refl), ((refl, refl), tt)) (λ job. tt)
