-- ===== src/Delivery/Reports.antt =====
-- Which chains are reported as stalled, and that each is once
-- (src/mco/orchestrator/delivery.py, `_sweep_chain_stalls`).
use bit_cadence.Prelude.{
  ℕ, ◌≡◌, refl, String, true, false, Option, some, List, [], ◌∷◌, arith, if◌then◌else◌, str_eq,
  eq_iff, not, ◌&&◌, contains, Bool-cases, inl, inr, ◌⊎◌, subst, All, Option-cases, ◌+◌, ◌*◌, ◌≤◌,
  ◌↔◌,
}
use bit_cadence.Delivery.Chains.{
  Packet, Handoff, Watch, Board, follows, successor_exists, lookback, is_stalled, visit_packet,
  visit_packets, sweep_chains,
}

-- No report is made twice.
abbrev pub AreOnce : List String → Type 0
AreOnce [] = Unit {0}
AreOnce (k ∷ ks) = (contains k ks ≡ false) × AreOnce ks

-- The job was completed within the last day and a grace window ago, was to be followed, and no job of the
-- board is of its chain or was made by its worker since.
pub record IsStalled (w : Watch) (now : ℕ) (jobs : List Packet) (j : Packet) : Type 0 where
  pub done : ℕ
  pub finished : j.completed_at ≡ some done
  pub completed : j.completed ≡ true
  pub expected : j.expects_successor ≡ true
  pub recent : now ≤ done + lookback
  pub waited : done + w.grace * 1000000 ≤ now
  pub alone : All (λ q. follows j done q ≡ false) jobs

-- A job of the list that is stalled has the id.
abbrev pub IsReport : Watch → ℕ → List Packet → List Packet → String → Type 0
IsReport w now jobs [] k = ⊥
IsReport w now jobs (j ∷ js) k = ((j.id ≡ k) × IsStalled w now jobs j) ⊎ IsReport w now jobs js k

none_follows :
    (j : Packet) (done : ℕ) (jobs : List Packet)
    → successor_exists jobs j done ≡ false
    → All (λ q. follows j done q ≡ false) jobs
unfolding successor_exists
none_follows j done [] h = tt
none_follows j done (q ∷ jobs) h = (ground arith, none_follows j done jobs (ground arith))

no_successor :
    (j : Packet) (done : ℕ) (jobs : List Packet)
    → All (λ q. follows j done q ≡ false) jobs
    → successor_exists jobs j done ≡ false
unfolding successor_exists
no_successor j done [] h = refl
no_successor j done (q ∷ jobs) (here, h) = ground (arith, here, no_successor j done jobs h)

is_stalled-IsStalled :
    (w : Watch) (now : ℕ) (jobs : List Packet) (j : Packet)
    → is_stalled w now jobs j ≡ true
    → IsStalled w now jobs j
unfolding is_stalled
is_stalled-IsStalled w now jobs j h = elim (Option-cases j.completed_at) [
  | inl gone ↦ absurd (ground (arith, h, gone))
  | inr (done, e) ↦ record {
    done = done;
    finished = e;
    completed = ground (arith, h, e);
    expected = ground (arith, h, e);
    recent = ground (arith, h, e);
    waited = ground (arith, h, e);
    alone = none_follows j done jobs (ground (arith, h, e));
  }
]

IsStalled-is_stalled :
    (w : Watch) (now : ℕ) (jobs : List Packet) (j : Packet)
    → IsStalled w now jobs j
    → is_stalled w now jobs j ≡ true
unfolding is_stalled
IsStalled-is_stalled w now jobs j s = ground (
  arith,
  s.finished,
  s.completed,
  s.expected,
  s.recent,
  s.waited,
  no_successor j s.done jobs s.alone,
)

module _ (insert : Handoff → Option Packet) (w : Watch) (now : ℕ) (jobs : List Packet) where
  visit_packet-AreOnce :
      (job : Packet) (b : Board)
      → AreOnce b.reported
      → AreOnce (visit_packet insert w now jobs job b).reported
  unfolding visit_packet
  visit_packet-AreOnce job b h =
      elim (Bool-cases (is_stalled w now jobs job && not (contains job.id b.reported))) [
        | inl fresh ↦ rw (fresh, visit_packet) (ground (arith, fresh), h)
        | inr old ↦ rw (old, visit_packet) h
      ]

  visit_packets-AreOnce :
      (js : List Packet) (b : Board)
      → AreOnce b.reported
      → AreOnce (visit_packets insert w now jobs js b).reported
  unfolding visit_packets
  visit_packets-AreOnce [] b h = h
  visit_packets-AreOnce (j ∷ js) b h =
      visit_packets-AreOnce js (visit_packet insert w now jobs j b) (visit_packet-AreOnce j b h)

  -- After a visit, the reports are those before it and the job's id, if it is stalled.
  visit_packet-reported :
      (job : Packet) (b : Board) (k : String)
      → contains k (visit_packet insert w now jobs job b).reported
        ≡ (if is_stalled w now jobs job && str_eq job.id k then true else contains k b.reported)
  unfolding visit_packet
  visit_packet-reported job b k = elim (Bool-cases (is_stalled w now jobs job)) [
    | inr fine ↦ ground (arith, fine)
    | inl stalled ↦ elim (Bool-cases (contains job.id b.reported)) [
      | inr fresh ↦ ground (arith, stalled, fresh)
      | inl old ↦ elim (Bool-cases (str_eq job.id k)) [
        | inr other ↦ ground (arith, stalled, old, other)
        | inl same ↦
            let equal : job.id ≡ k = ground (arith, eq_iff job.id k) in
            let old' : contains k b.reported ≡ true =
              subst (λ x. contains x b.reported ≡ true) equal old in
            ground (arith, stalled, old, old', same)
      ]
    ]
  ]

  one_visit :
      (job : Packet) (b : Board) (k : String)
      → contains k (visit_packet insert w now jobs job b).reported ≡ true
      → ((job.id ≡ k) × IsStalled w now jobs job) ⊎ (contains k b.reported ≡ true)
  one_visit job b k h = elim (Bool-cases (is_stalled w now jobs job && str_eq job.id k)) [
    | inl new ↦ inl (
      ground (arith, eq_iff job.id k, new),
      is_stalled-IsStalled w now jobs job (ground (arith, new)),
    )
    | inr old ↦ inr (ground (arith, h, old, visit_packet-reported job b k))
  ]

  visits_from :
      (js : List Packet) (b : Board) (k : String)
      → contains k (visit_packets insert w now jobs js b).reported ≡ true
      → IsReport w now jobs js k ⊎ (contains k b.reported ≡ true)
  unfolding visit_packets
  visits_from [] b k h = inr h
  visits_from (j ∷ js) b k h = elim (visits_from js (visit_packet insert w now jobs j b) k h) [
    | inl later ↦ inl (inr later)
    | inr before ↦ elim (one_visit j b k before) [ inl here ↦ inl (inl here) | inr old ↦ inr old ]
  ]

  visits_keep :
      (js : List Packet) (b : Board) (k : String)
      → contains k b.reported ≡ true
      → contains k (visit_packets insert w now jobs js b).reported ≡ true
  unfolding visit_packets
  visits_keep [] b k h = h
  visits_keep (j ∷ js) b k h =
      visits_keep js (visit_packet insert w now jobs j b) k
        (ground (arith, h, visit_packet-reported j b k))

  visits_add :
      (js : List Packet) (b : Board) (k : String)
      → IsReport w now jobs js k
      → contains k (visit_packets insert w now jobs js b).reported ≡ true
  unfolding visit_packets
  visits_add [] b k h = elim h [ ]
  visits_add (j ∷ js) b k (inl (same, stalled)) =
      visits_keep js (visit_packet insert w now jobs j b) k (
        ground (
          arith,
          visit_packet-reported j b k,
          IsStalled-is_stalled w now jobs j stalled,
          eq_iff j.id k,
          same,
        ))
  visits_add (j ∷ js) b k (inr later) = visits_add js (visit_packet insert w now jobs j b) k later

-- A sweep leaves a chain reported exactly where it was reported before, or a job of the board with that id
-- is completed within the last day and a grace window ago, was to be followed, and no job on the board
-- names it as the parent of its chain or was made by its worker since.
pub sweep_chains-IsReport :
    (insert : Handoff → Option Packet) (w : Watch) (now : ℕ) (b : Board) (k : String)
    → (contains k (sweep_chains insert w now b).reported ≡ true)
      ↔ (IsReport w now b.jobs b.jobs k ⊎ (contains k b.reported ≡ true))
unfolding sweep_chains
sweep_chains-IsReport insert w now b k = (
  visits_from insert w now b.jobs b.jobs b k,
  λ h. elim h [
    | inl new ↦ visits_add insert w now b.jobs b.jobs b k new
    | inr old ↦ visits_keep insert w now b.jobs b.jobs b k old
  ],
)

-- Sweeps in a row, each over the jobs as they are by then.
unfoldable pub sweeps_over :
    (Handoff → Option Packet) → Watch → List (ℕ × List Packet) → List String → List String
sweeps_over insert w [] reported = reported
sweeps_over insert w ((now, jobs) ∷ rest) reported =
    sweeps_over insert w rest
      (sweep_chains insert w now (record { jobs = jobs; reported = reported })).reported

sweeps_over-AreOnce_from :
    (insert : Handoff → Option Packet) (w : Watch) (turns : List (ℕ × List Packet))
    (reported : List String)
    → AreOnce reported
    → AreOnce (sweeps_over insert w turns reported)
unfolding sweeps_over sweep_chains
sweeps_over-AreOnce_from insert w [] reported h = h
sweeps_over-AreOnce_from insert w ((now, jobs) ∷ rest) reported h =
    sweeps_over-AreOnce_from insert w rest _
      (visit_packets-AreOnce insert w now jobs jobs (record { jobs = jobs; reported = reported }) h)

-- However many sweeps run, whenever they do and whatever the jobs are by then, no chain is reported as
-- stalled a second time.
pub sweeps_over-AreOnce :
    (insert : Handoff → Option Packet) (w : Watch) (turns : List (ℕ × List Packet))
    → AreOnce (sweeps_over insert w turns [])
sweeps_over-AreOnce insert w turns = sweeps_over-AreOnce_from insert w turns [] tt
