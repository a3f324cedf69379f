-- ===== src/Delivery/Chains.antt =====
-- The sweep over finished jobs that were to be followed by another one
-- (src/mco/orchestrator/delivery.py, `_sweep_chain_stalls`).
use bit_cadence.Prelude.{
  ℕ, ◌+◌, ◌*◌, String, Bool, false, Option, none, some, List, [], ◌∷◌, ◌++◌, if◌then◌else◌, any_by,
  str_eq, leb, ltb, not, ◌&&◌, ◌||◌, truthy, get_or, contains,
}

-- A row of the job table, as far as the sweep reads it.
pub record Packet : Type 0 where
  pub id : String
  pub completed : Bool
  pub expects_successor : Bool
  pub completed_at : Option ℕ
  pub worker : Option String
  pub chain_parent : Option String
  pub source : Option String
  pub created_at : Option ℕ

-- The job that is handed to the role of the settings: what it is about, for whom, and of which chain.
pub record Handoff : Type 0 where
  pub chain_parent : String
  pub stalled_worker : String
  pub to_role : String

pub record Watch : Type 0 where
  pub grace : ℕ
  pub to_role : String

-- The jobs on the board, and those with a chain_stalled event in their trails, newest first.
pub record Board : Type 0 where
  pub jobs : List Packet
  pub reported : List String

abbrev pub lookback : ℕ
lookback = 86400000000

abbrev pub is_some_text : Option String → String → Bool
is_some_text none t = false
is_some_text (some s) t = str_eq s t

abbrev pub is_since : Option ℕ → ℕ → Bool
is_since none t = false
is_since (some c) t = leb t c

-- The job is of the parent's chain, or its worker made it after the parent was completed.
unfoldable pub follows : Packet → ℕ → Packet → Bool
follows parent completed_at job =
    is_some_text job.chain_parent parent.id
    || truthy parent.worker
      && is_some_text job.source (get_or "" parent.worker)
      && is_since job.created_at completed_at

unfoldable pub successor_exists : List Packet → Packet → ℕ → Bool
successor_exists jobs parent completed_at = any_by (follows parent completed_at) jobs

-- The tests on a job, but for its trail.
unfoldable pub is_stalled : Watch → ℕ → List Packet → Packet → Bool
is_stalled w now jobs job = elim job.completed_at [
  | none ↦ false
  | some done ↦
      job.completed
      && job.expects_successor
      && not (ltb (done + lookback) now)
      && not (ltb now (done + w.grace * 1000000))
      && not (successor_exists jobs job done)
]

-- `insert` is the table's: the row that it makes, if it makes one.
module _ (insert : Handoff → Option Packet) where
  unfoldable pub hand_off : Watch → Packet → List Packet → List Packet
  hand_off w job board =
      if str_eq w.to_role ""
      then board
      else elim (insert (record {
        chain_parent = job.id;
        stalled_worker = if truthy job.worker then get_or "" job.worker else "unknown";
        to_role = w.to_role;
      })) [ none ↦ board | some row ↦ board ++ (row ∷ []) ]

  -- One job of the list that the sweep has read at its beginning.
  unfoldable pub visit_packet : Watch → ℕ → List Packet → Packet → Board → Board
  visit_packet w now jobs job b =
      if is_stalled w now jobs job && not (contains job.id b.reported)
      then record { jobs = hand_off w job b.jobs; reported = job.id ∷ b.reported }
      else b

  unfoldable pub visit_packets : Watch → ℕ → List Packet → List Packet → Board → Board
  visit_packets w now jobs [] b = b
  visit_packets w now jobs (j ∷ js) b = visit_packets w now jobs js (visit_packet w now jobs j b)

  unfoldable pub sweep_chains : Watch → ℕ → Board → Board
  sweep_chains w now b = visit_packets w now b.jobs b.jobs b
