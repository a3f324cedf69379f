-- ===== src/Cio.antt =====
-- The mechanical rules on proposals (src/mco/orchestrator/cio_policy.py). Texts are folded as ASCII; spend is not
-- negative. An intersection of sets, sorted, is what the sorted constant set has of the other.
pub mod Approval
mod Examples
use bit_cadence.Prelude.{
  ℕ, ◌+◌, String, Bool, true, false, ◌&&◌, ◌||◌, not, Option, none, some, List, [], ◌∷◌, ◌++◌, map,
  leb, ltb, ◌==◌, if◌then◌else◌, is_some, str_eq, contains, filter_by, is_blank, strip, codes_of,
  same_folded,
}

pub data Verdict : Type 0 where
  approve reject escalate : Verdict

pub data Cause : Type 0 where
  no_proposer no_decider self_approval undefined_cap at_cap nothing_matched : Cause
  prohibited escalation : String → Cause

pub record Proposal : Type 0 where
  pub project : String
  pub spend_cents : ℕ
  pub categories : List String
  pub proposed_by : String

pub record Decision : Type 0 where
  pub verdict : Verdict
  pub reasons : List Cause

abbrev pub prohibited_categories : List String
prohibited_categories =
    "automated_client_messaging" ∷ "bank_client" ∷ "bypass_bot_check" ∷ "codex_mac"
    ∷ "finance_client" ∷ "live_trading" ∷ "mac_claude" ∷ "paid_github" ∷ "print_secret" ∷ []

abbrev pub escalate_categories : List String
escalate_categories =
    "automated_client_messaging" ∷ "bank_client" ∷ "bypass_bot_check" ∷ "codex_mac" ∷ "delete_data"
    ∷ "finance_client" ∷ "legal_trademark_licensing" ∷ "live_trading" ∷ "mac_claude" ∷ "paid_github"
    ∷ "print_secret" ∷ "real_money_finance" ∷ "security_credential_change" ∷ []

abbrev pub chief_is_online : Option ℕ → Bool
chief_is_online none = false
chief_is_online (some n) = ltb n 300

-- a letter in lower case; a space and a dash are underscores
abbrev pub normal_code : ℕ → ℕ
normal_code c = if leb 65 c && leb c 90 then c + 32 else if c == 32 || c == 45 then 95 else c

abbrev pub normal_codes : List ℕ → List ℕ
normal_codes [] = []
normal_codes (c ∷ cs) = normal_code c ∷ normal_codes cs

abbrev pub same_list : List ℕ → List ℕ → Bool
same_list [] [] = true
same_list (a ∷ xs) (b ∷ ys) = a == b && same_list xs ys
same_list _ _ = false

-- whether the name of the project, normalized, is the key
unfoldable pub is_project : String → String → Bool
is_project key project = same_list (normal_codes (codes_of (strip project))) (codes_of key)

-- SPEND_CAPS_CENTS.get(_normalize_project(project))
unfoldable pub cap_of : String → Option ℕ
unfolding is_project
cap_of p =
    if is_project "via" p
    then some 15000
    else if is_project "mymeals" p
    then some 1500
    else if is_project "sim_lab" p
    then some 2500
    else if is_project "operate" p
    then some 1000
    else none

abbrev pub known_project : String → Bool
known_project p = is_some (cap_of p)

abbrev pub reaches : ℕ → Option ℕ → Bool → Bool
reaches spend none lab = false
reaches spend (some cap) lab = if lab && leb 4000 spend then true else leb cap spend

unfoldable pub over_spend_cap : String → ℕ → Bool
over_spend_cap p spend = reaches spend (cap_of p) (is_project "sim_lab" p)

abbrev pub matching : List String → List String → List String
matching constants categories = filter_by (λ c. contains c categories) constants

abbrev pub is_none : List String → Bool
is_none [] = true
is_none (x ∷ xs) = false

unfoldable pub spend_reasons : Proposal → List Cause
unfolding over_spend_cap
spend_reasons p =
    if ltb 0 p.spend_cents && not (known_project p.project)
    then undefined_cap ∷ []
    else if over_spend_cap p.project p.spend_cents
    then at_cap ∷ []
    else []

abbrev pub verdict_of : List Cause → Decision
verdict_of [] = record { verdict = approve; reasons = nothing_matched ∷ [] }
verdict_of (r ∷ rs) = record { verdict = escalate; reasons = r ∷ rs }

-- once the proposer and the decider are two
unfoldable pub judge_content : Proposal → Decision
unfolding spend_reasons
judge_content p =
    if not (is_none (matching prohibited_categories p.categories))
    then record {
      verdict = reject;
      reasons = map prohibited (matching prohibited_categories p.categories);
    }
    else verdict_of (map escalation (matching escalate_categories p.categories) ++ spend_reasons p)

unfoldable pub evaluate : Proposal → String → Decision
unfolding judge_content
evaluate p decider =
    if is_blank p.proposed_by
    then record { verdict = escalate; reasons = no_proposer ∷ [] }
    else if is_blank decider
    then record { verdict = escalate; reasons = no_decider ∷ [] }
    else if same_folded (strip p.proposed_by) (strip decider)
    then record { verdict = escalate; reasons = self_approval ∷ [] }
    else judge_content p
