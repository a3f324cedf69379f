-- ===== src/Cio/Examples.antt =====
-- Tests of the rules on proposals, and their theorem at concrete inputs.
use bit_cadence.Prelude.{◌≡◌, refl, ◌&&◌, not, [], ◌∷◌, is_blank, strip, same_folded}
use bit_cadence.Cio.{
  Proposal, evaluate, approve, escalate, reject, matching, escalate_categories, is_none, cap_of,
}
use bit_cadence.Cio.Approval.{is_approve, affordable, evaluate-approves}

abbrev cheap : Proposal
cheap = record {
  project = " Sim-Lab ";
  spend_cents = 2400;
  categories = "research" ∷ [];
  proposed_by = "ann";
}

evaluate-approves_example : is_approve (evaluate cheap "bob").verdict ≡ (
    not (is_blank cheap.proposed_by)
    && not (is_blank "bob")
    && not (same_folded (strip cheap.proposed_by) (strip "bob"))
    && is_none (matching escalate_categories cheap.categories)
    && affordable cheap.spend_cents (cap_of cheap.project))
evaluate-approves_example = evaluate-approves cheap "bob"

evaluate-cheap : (evaluate cheap "bob").verdict ≡ approve
unfolding evaluate cap_of
evaluate-cheap = refl

-- One's own proposal.
evaluate-own : (evaluate cheap "Ann ").verdict ≡ escalate
unfolding evaluate
evaluate-own = refl

evaluate-trading :
    (evaluate (record cheap { categories = "live_trading" ∷ [] }) "bob").verdict ≡ reject
unfolding evaluate
evaluate-trading = refl
