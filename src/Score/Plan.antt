-- ===== src/Score/Plan.antt =====
-- The contract of a score (src/mco/orchestrator/scores.py, `load_score`), from a document whose values have
-- the types that the contract names.
use bit_cadence.Prelude.{
  ℕ, zero, suc, String, Bool, true, false, ◌&&◌, ◌||◌, not, Option, none, some, List, [], ◌∷◌, ◌++◌,
  leb, ◌==◌, if◌then◌else◌, str_eq, lookup, length, contains, all_by, any_by, is_blank, codes_of,
  ok, ◌>>◌, require,
}
use bit_cadence.Score.Policy.{
  Checked, bad_string, bad_integer, bad_strings, duplicate_entries, unsupported_version,
  bad_task_count, bad_identifier, duplicate_task, same_roles, own_reject, commit_forbidden,
  unknown_dependency, unknown_reject, reject_cycle, reject_independent, unknown_requirement,
  dependency_cycle,
}

pub record Checkpoint : Type 0 where
  pub id : String
  pub reason : String

pub record Commit : Type 0 where
  pub worktree_path : String
  pub target_branch : String
  pub allowed_paths : List String
  pub commit_message : Option String
  pub expected_before_sha : Option String

pub record Task : Type 0 where
  pub id : String
  pub goal : String
  pub title : String
  pub instructions : String
  pub role : String
  pub review_role : String
  pub depends_on : List String
  pub resources : List String
  pub capabilities : List String
  pub evidence : List String
  pub max_attempts : ℕ
  pub timeout_seconds : ℕ
  pub max_cost_cents : ℕ
  pub checkpoint : Option Checkpoint
  pub on_reject : Option String
  pub commit : Option Commit

pub record Plan : Type 0 where
  pub score_version : ℕ
  pub id : String
  pub objective : String
  pub revision : ℕ
  pub budget_cents : ℕ
  pub max_parallel : ℕ
  pub constraints : List String
  pub launch_requires : List String
  pub tasks : List Task

-- `_string`
abbrev pub check_text : String → Checked (Unit {0})
check_text s = require (not (is_blank s)) bad_string

abbrev pub check_option : Option String → Checked (Unit {0})
check_option none = ok tt
check_option (some s) = check_text s

-- `_integer(value, 1)`
abbrev pub check_positive : ℕ → Checked (Unit {0})
check_positive n = require (leb 1 n) bad_integer

abbrev pub has_duplicates : List String → Bool
has_duplicates [] = false
has_duplicates (x ∷ xs) = contains x xs || has_duplicates xs

abbrev pub is_nil {ℓ} : {A : Type ℓ} → List A → Bool
is_nil [] = true
is_nil (x ∷ xs) = false

-- `_strings`
unfoldable pub check_texts : Bool → List String → Checked (Unit {0})
check_texts nonempty xs = do
  require (not (nonempty && is_nil xs)) bad_strings
  require (not (any_by is_blank xs)) bad_string
  require (not (has_duplicates xs)) duplicate_entries

abbrev pub is_letter : ℕ → Bool
is_letter c = leb 65 c && leb c 90 || leb 97 c && leb c 122

abbrev pub is_word : ℕ → Bool
is_word c = is_letter c || leb 48 c && leb c 57 || c == 95 || c == 45

-- [A-Za-z][A-Za-z0-9_-]{0,63}
abbrev pub is_identifier : List ℕ → Bool
is_identifier [] = false
is_identifier (c ∷ cs) = is_letter c && all_by is_word cs && leb (length cs) 63

abbrev pub same_name : Option String → String → Bool
same_name none s = false
same_name (some t) s = str_eq t s

check_checkpoint : Option Checkpoint → Checked (Unit {0})
check_checkpoint none = ok tt
check_checkpoint (some c) = do check_text c.id; check_text c.reason

check_commit : List String → Option Commit → Checked (Unit {0})
unfolding check_texts
check_commit capabilities none = ok tt
check_commit capabilities (some c) = do
  require (contains "repository:write" capabilities) commit_forbidden
  check_text c.worktree_path
  check_text c.target_branch
  check_texts true c.allowed_paths
  check_option c.commit_message
  check_option c.expected_before_sha

-- one round of the loop over the tasks, `ids` being those of the tasks before
unfoldable pub check_task : List String → Task → Checked (Unit {0})
unfolding check_texts check_checkpoint check_commit
check_task ids t = do
  check_text t.id
  check_text t.goal
  check_text t.title
  check_text t.instructions
  check_text t.role
  check_text t.review_role
  require (is_identifier (codes_of t.id)) bad_identifier
  require (not (contains t.id ids)) duplicate_task
  require (not (str_eq t.role t.review_role)) same_roles
  check_option t.on_reject
  require (not (same_name t.on_reject t.id)) own_reject
  check_texts false t.depends_on
  check_texts true t.resources
  check_texts true t.capabilities
  check_texts true t.evidence
  check_positive t.max_attempts
  check_positive t.timeout_seconds
  check_checkpoint t.checkpoint
  check_commit t.capabilities t.commit

unfoldable pub check_tasks : List String → List Task → Checked (Unit {0})
unfolding check_task
check_tasks ids [] = ok tt
check_tasks ids (t ∷ ts) = do check_task ids t; check_tasks (t.id ∷ ids) ts

abbrev pub ids_of : List Task → List String
ids_of [] = []
ids_of (t ∷ ts) = t.id ∷ ids_of ts

abbrev pub within : List String → List String → Bool
within xs ys = all_by (λ x. contains x ys) xs

abbrev pub known_target : List String → Option String → Bool
known_target ids none = true
known_target ids (some t) = contains t ids

unfoldable pub check_links : List String → List Task → Checked (Unit {0})
check_links ids [] = ok tt
check_links ids (t ∷ ts) = do
  require (within t.depends_on ids) unknown_dependency
  require (known_target ids t.on_reject) unknown_reject
  check_links ids ts

-- a graph as a table of the targets of each node
abbrev pub Graph : Type 0
Graph = List (String × List String)

abbrev pub nodes : Graph → List String
nodes [] = []
nodes ((k, ts) ∷ g) = k ∷ nodes g

-- the rows that a round leaves, and the nodes that it takes out, where `test` passes a row's targets
unfoldable pub left_over : (List String → Bool) → Graph → Graph
left_over test [] = []
left_over test ((k, ts) ∷ g) =
    let rest = left_over test g in if test ts then rest else (k, ts) ∷ rest

unfoldable pub taken : (List String → Bool) → Graph → List String
taken test [] = []
taken test ((k, ts) ∷ g) = let rest = taken test g in if test ts then k ∷ rest else rest

-- What the loop that checks the dependencies ends with: the order in which the tasks can be done, or a round
-- that takes nothing out, where it raises. It is unfinished where the bound on its rounds ended it.
pub data Ending : Type 0 where
  placed : List String → Ending
  no_progress unfinished : Ending

abbrev pub is_placed : Ending → Bool
is_placed (placed order) = true
is_placed no_progress = false
is_placed unfinished = false

-- The loop that checks the dependencies, on a bound on its rounds.
unfoldable pub settle : ℕ → Graph → List String → Ending
unfolding left_over taken
settle zero pending done = if is_nil pending then placed done else unfinished
settle (suc n) pending done =
    let ready = taken (λ deps. within deps done) pending in
    let rest = settle n (left_over (λ deps. within deps done) pending) (ready ++ done) in
    if is_nil pending then placed done else if is_nil ready then no_progress else rest

abbrev pub disjoint : List String → List String → Bool
disjoint xs ys = not (any_by (λ x. contains x ys) xs)

-- The loop on `on_reject`: a round takes out the nodes whose target is none of those left.
unfoldable pub unwind : ℕ → Graph → Bool
unfolding left_over taken
unwind zero pending = is_nil pending
unwind (suc n) pending =
    let ready = taken (λ ts. disjoint ts (nodes pending)) pending in
    let rest = unwind n (left_over (λ ts. disjoint ts (nodes pending)) pending) in
    if is_nil pending then true else if is_nil ready then false else rest

abbrev pub dependencies : List Task → Graph
dependencies [] = []
dependencies (t ∷ ts) = (t.id, t.depends_on) ∷ dependencies ts

abbrev pub reject_row : String → Option String → Graph → Graph
reject_row k none g = g
reject_row k (some t) g = if str_eq t "" then g else (k, t ∷ []) ∷ g

abbrev pub rejections : List Task → Graph
rejections [] = []
rejections (t ∷ ts) = reject_row t.id t.on_reject (rejections ts)

abbrev pub depends : String → Option (List String) → Bool
depends k none = false
depends k (some deps) = contains k deps

abbrev pub answers_target : Graph → Task → Option String → Bool
answers_target g t none = true
answers_target g t (some target) = depends t.id (lookup target g)

unfoldable pub check_rejections : Graph → List Task → Checked (Unit {0})
unfolding lookup
check_rejections g [] = ok tt
check_rejections g (t ∷ ts) = do
  require (answers_target g t t.on_reject) reject_independent
  check_rejections g ts

-- what `load_score` checks of a document that has a parsed shape
unfoldable pub load_score : Plan → Checked (Unit {0})
unfolding check_texts check_tasks check_links unwind check_rejections settle
load_score p = do
  require (p.score_version == 1) unsupported_version
  check_text p.id
  check_text p.objective
  check_positive p.revision
  check_positive p.max_parallel
  check_texts true p.constraints
  check_texts true p.launch_requires
  require (leb 1 (length p.tasks) && leb (length p.tasks) 500) bad_task_count
  check_tasks [] p.tasks
  check_links (ids_of p.tasks) p.tasks
  require (unwind (length p.tasks) (rejections p.tasks)) reject_cycle
  check_rejections (dependencies p.tasks) p.tasks
  require (within p.launch_requires (ids_of p.tasks)) unknown_requirement
  require (is_placed (settle (length p.tasks) (dependencies p.tasks) [])) dependency_cycle
