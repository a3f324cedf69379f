-- ===== src/Delivery/Examples.antt =====
-- Tests of the delivery watchdog, and its theorems at concrete inputs.
use bit_cadence.Prelude.{
  Option, none, contains, ◌↔◌, ◌⊎◌, ℕ, ◌*◌, ◌≤◌, ◌≡◌, refl, String, true, false, some, List, [],
  ◌∷◌, arith, lookup,
}
use bit_cadence.Delivery.{
  Event, Job, Settings, Fleet, rekicked, escalated, follow, follow_all, delivery_state, rekick,
  reroute, escalate, none_on_host, sweep_job, step_at, choose, on_host, anywhere, instance_for,
  first_on_host, instance_host, after_prefix, identity_bound, is_gate, is_queued, apply,
}
use bit_cadence.Delivery.Chains.{
  Packet, Handoff, Watch, Board, follows, successor_exists, is_stalled, hand_off, visit_packet,
  visit_packets, sweep_chains,
}
use bit_cadence.Delivery.Reports.{
  AreOnce, IsReport, sweep_chains-IsReport, sweeps_over, sweeps_over-AreOnce,
}
use bit_cadence.Delivery.Actions.{Allowed, sweep_job-Allowed}
use bit_cadence.Delivery.Sweeps.{Turn, swept, happened, run, take_turn, count_reroutes, run-Capped}
use bit_cadence.Delivery.Stalls.{Acted, stalled-Acted, sweeps_of, escalated-quiet}

abbrev settings : Settings
settings = record {
  stall = 600;
  kill_switch = false;
  max_reroutes = 2;
  fallbacks = ("codex", "claude" ∷ []) ∷ [];
  cross_host = false;
}

abbrev fleet : List (String × String) → Fleet
fleet online = record {
  lower = λ s. s;
  busy = [];
  roles = λ org. "claude" ∷ [];
  instances = λ org. online;
  still_pending = true;
}

-- A job that is pinned to a worker on the machine `mac`, made at time 0.
abbrev pinned : Job
pinned = record {
  id = "j";
  archived = false;
  created_at = some 0;
  target_role = "codex";
  target_id = some "codex-mac";
  org = "default";
  title = "Build";
  no_reroute = false;
}

abbrev minutes : ℕ → ℕ
minutes n = n * 60000000

abbrev kicked : List Event
kicked = record { name = rekicked; at = some (minutes 11) } ∷ []

-- It goes to the fallback on its own machine, not to the one before it in the list.
sweep_job-same_host :
    sweep_job
      (fleet (("claude", "claude-pc") ∷ ("claude", "claude-mac") ∷ []))
      settings
      (minutes 21)
      pinned
      kicked
    ≡ reroute "claude" (some "claude-mac")
unfolding sweep_job step_at choose on_host anywhere instance_for first_on_host instance_host
    after_prefix identity_bound is_gate is_queued follow follow_all apply lookup take_turn run
sweep_job-same_host = refl

sweep_job-no_host :
    sweep_job (fleet (("claude", "claude-pc") ∷ [])) settings (minutes 21) pinned kicked
    ≡ escalate none_on_host
unfolding sweep_job step_at choose on_host anywhere instance_for first_on_host instance_host
    after_prefix identity_bound is_gate is_queued follow follow_all apply lookup take_turn run
sweep_job-no_host = refl

sweep_job-Allowed_example :
    Allowed
      (fleet (("claude", "claude-mac") ∷ []))
      settings
      (minutes 21)
      pinned
      (delivery_state pinned kicked)
      (reroute "claude" (some "claude-mac"))
unfolding sweep_job step_at choose on_host anywhere instance_for first_on_host instance_host
    after_prefix identity_bound is_gate is_queued follow follow_all apply lookup take_turn run
sweep_job-Allowed_example =
    sweep_job-Allowed (fleet (("claude", "claude-mac") ∷ [])) settings (minutes 21) pinned kicked

abbrev turns : List Turn
turns =
    swept (fleet (("claude", "claude-mac") ∷ [])) (minutes 11) (minutes 11)
    ∷ swept (fleet (("claude", "claude-mac") ∷ [])) (minutes 21) (minutes 21)
    ∷ happened (some (minutes 25))
    ∷ []

run-Capped_example : count_reroutes (run settings turns (pinned, [])).1 ≤ 2
run-Capped_example = run-Capped settings turns pinned

stalled-Acted_example :
    (sweep_job (fleet []) settings (minutes 11) pinned [] ≡ rekick)
    × Acted (sweep_job (fleet []) settings (minutes 21) pinned kicked)
unfolding sweep_job step_at choose on_host anywhere instance_for first_on_host instance_host
    after_prefix identity_bound is_gate is_queued follow follow_all apply lookup take_turn run
stalled-Acted_example =
    stalled-Acted settings pinned [] 0 (omega arith, refl, refl) refl refl refl (fleet [])
      (fleet []) (minutes 11) (minutes 11) (minutes 21) (omega arith) (omega arith) refl refl

abbrev given_up : List Event
given_up =
    record { name = rekicked; at = some (minutes 11) }
    ∷ record { name = escalated; at = some (minutes 22) }
    ∷ []

escalated-quiet_example :
    run settings (sweeps_of ((fleet [], minutes 30, minutes 30) ∷ [])) (pinned, given_up)
    ≡ (pinned, given_up)
unfolding sweep_job step_at choose on_host anywhere instance_for first_on_host instance_host
    after_prefix identity_bound is_gate is_queued follow follow_all apply lookup take_turn run
escalated-quiet_example =
    escalated-quiet (fleet []) settings (minutes 21) (minutes 22) pinned kicked none_on_host
      ((fleet [], minutes 30, minutes 30) ∷ []) refl

-- A job that was to be followed, completed at the tenth minute.
abbrev packet : Packet
packet = record {
  id = "p";
  completed = true;
  expects_successor = true;
  completed_at = some (minutes 10);
  worker = some "codex-mac";
  chain_parent = none;
  source = none;
  created_at = some 0;
}

-- The row of a hand-off.
abbrev inserted : Handoff → Option Packet
inserted h = some (record {
  id = "h";
  completed = false;
  expects_successor = false;
  completed_at = none;
  worker = none;
  chain_parent = some h.chain_parent;
  source = some "system";
  created_at = some (minutes 25);
})

abbrev watch : Watch
watch = record { grace = 600; to_role = "chief" }

abbrev board : Board
board = record { jobs = packet ∷ []; reported = [] }

sweep_chains-reported : (sweep_chains inserted watch (minutes 25) board).reported ≡ "p" ∷ []
unfolding sweep_chains visit_packets visit_packet is_stalled successor_exists follows hand_off
sweep_chains-reported = refl

sweep_chains-handed_off :
    successor_exists (sweep_chains inserted watch (minutes 25) board).jobs packet (minutes 10)
    ≡ true
unfolding sweep_chains visit_packets visit_packet is_stalled successor_exists follows hand_off
sweep_chains-handed_off = refl

sweep_chains-IsReport_example :
    (contains "p" (sweep_chains inserted watch (minutes 25) board).reported ≡ true)
    ↔ (IsReport watch (minutes 25) (packet ∷ []) (packet ∷ []) "p" ⊎ (contains "p" [] ≡ true))
sweep_chains-IsReport_example = sweep_chains-IsReport inserted watch (minutes 25) board "p"

abbrev chain_turns : List (ℕ × List Packet)
chain_turns = (minutes 25, packet ∷ []) ∷ (minutes 35, packet ∷ packet ∷ []) ∷ []

sweeps_over-AreOnce_example : AreOnce (sweeps_over inserted watch chain_turns [])
sweeps_over-AreOnce_example = sweeps_over-AreOnce inserted watch chain_turns
