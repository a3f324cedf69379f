-- ===== src/Workflows/Loading.antt =====
-- What a workflow is that `load_workflow` accepts (src/mco/orchestrator/workflows.py).
use bit_cadence.Prelude.{
  ◌≡◌, refl, String, Bool, true, false, List, [], ◌∷◌, arith, ap, subst, contains, Dict, lookup,
  str_eq, eq_iff, Bool-cases, inl, inr, ◌⊎◌, All, Raises, ok, err, require, ◌>>=◌, ◌>>◌, not, ◌&&◌,
}
use bit_cadence.Workflows.{
  Step, Entry, mapping, other, Document, without_steps, Fault, cycle, key_error, endless,
  failed_step, unknown_dependency, ids_of, by_id, topo_order, check_step, check_steps, no_name,
  no_steps, no_id, duplicate_id, no_role, no_title, check_deps, check_all_deps, Workflow,
  load_workflow, is_list_empty,
}
use bit_cadence.Workflows.Paths.{Reaches}
use bit_cadence.Workflows.Visits.{Caused}
use bit_cadence.Workflows.Order.{IsOrder, Ordered, topo_order-Ordered, index-All, index-holds}

-- the mappings in the list `steps`
abbrev pub steps_in : List Entry → List Step
steps_in [] = []
steps_in (other ∷ es) = steps_in es
steps_in (mapping s ∷ es) = s ∷ steps_in es

-- An id that is there and stands once, a role, and a title or instructions.
abbrev pub IsStep : List String → Step → Type 0
IsStep seen s =
    (not (str_eq s.id "") ≡ true)
    × (not (contains s.id seen) ≡ true)
    × (not (str_eq s.role "") ≡ true)
    × (not (str_eq s.title "" && str_eq s.instructions "") ≡ true)

abbrev pub Checked : List String → List Step → Type 0
Checked seen [] = Unit {0}
Checked seen (s ∷ ss) = IsStep seen s × Checked (s.id ∷ seen) ss

abbrev pub AllIn : List String → List String → Type 0
AllIn ds seen = (d : String) → contains d ds ≡ true → contains d seen ≡ true

-- Every dependency is one of the ids.
abbrev pub KnownIn : List String → Step → Type 0
KnownIn seen s = AllIn s.depends_on seen

-- What the checks before `topo_order` raise.
abbrev pub IsRefusal : Fault → Type 0
IsRefusal (cycle k) = ⊥
IsRefusal (key_error k) = ⊥
IsRefusal (failed_step id created) = ⊥
IsRefusal endless = ⊥
IsRefusal _ = Unit {0}

CheckedDeps : Type 0 → Raises Fault (Unit {0}) → Type 0
CheckedDeps P (ok u) = P
CheckedDeps P (err fault) = IsRefusal fault

-- Two checks in a row, each with what it finds.
both-CheckedDeps :
    (P Q R : Type 0) (a b : Raises Fault (Unit {0}))
    → CheckedDeps P a
    → CheckedDeps Q b
    → (P → Q → R)
    → CheckedDeps R (a >> b)
unfolding CheckedDeps
both-CheckedDeps P Q R (ok u) (ok v) p q f = f p q
both-CheckedDeps P Q R (ok u) (err fault) p q f = q
both-CheckedDeps P Q R (err fault) b p q f = p

require-CheckedDeps :
    (b : Bool) (fault : Fault) → IsRefusal fault → CheckedDeps (b ≡ true) (require b fault)
unfolding CheckedDeps
require-CheckedDeps true fault h = refl
require-CheckedDeps false fault h = h

check_step-IsStep :
    (seen : List String) (s : Step) → CheckedDeps (IsStep seen s) (check_step seen s)
unfolding check_step
check_step-IsStep seen s =
    let A : Type 0 = not (str_eq s.id "") ≡ true in
    let B : Type 0 = not (contains s.id seen) ≡ true in
    let C : Type 0 = not (str_eq s.role "") ≡ true in
    let D : Type 0 = not (str_eq s.title "" && str_eq s.instructions "") ≡ true in
    both-CheckedDeps (A × B × C) D (IsStep seen s) _ _
      (both-CheckedDeps (A × B) C (A × B × C) _ _
        (both-CheckedDeps A B (A × B) _ _ (require-CheckedDeps _ no_id tt)
          (require-CheckedDeps _ (duplicate_id s.id) tt) (λ a b. (a, b)))
        (require-CheckedDeps _ (no_role s.id) tt) (λ ab c. (ab.0, ab.1, c)))
      (require-CheckedDeps _ (no_title s.id) tt) (λ abc d. (abc.0, abc.1, abc.2, d))

CheckedSteps : List String → List Entry → Raises Fault (List Step) → Type 0
CheckedSteps seen es (ok ss) = (ss ≡ steps_in es) × Checked seen ss
CheckedSteps seen es (err fault) = IsRefusal fault

add-CheckedSteps :
    (seen : List String) (s : Step) (es : List Entry) (c : Raises Fault (Unit {0}))
    (r : Raises Fault (List Step))
    → CheckedDeps (IsStep seen s) c
    → CheckedSteps (s.id ∷ seen) es r
    → CheckedSteps seen (mapping s ∷ es) (c >> (r >>= λ ss. ok (s ∷ ss)))
unfolding CheckedSteps CheckedDeps
add-CheckedSteps seen s es (err fault) r p h = p
add-CheckedSteps seen s es (ok u) (err fault) p h = h
add-CheckedSteps seen s es (ok u) (ok ss) p (e, h) = (ap (λ x. s ∷ x) e, (p, h))

check_steps-CheckedSteps :
    (seen : List String) (es : List Entry) → CheckedSteps seen es (check_steps seen es)
unfolding check_steps CheckedSteps
check_steps-CheckedSteps seen [] = (refl, tt)
check_steps-CheckedSteps seen (other ∷ es) = tt
check_steps-CheckedSteps seen (mapping s ∷ es) =
    add-CheckedSteps seen s es (check_step seen s) (check_steps (s.id ∷ seen) es)
      (check_step-IsStep seen s) (check_steps-CheckedSteps (s.id ∷ seen) es)

check_deps-KnownIn :
    (id : String) (seen ds : List String) → CheckedDeps (AllIn ds seen) (check_deps id seen ds)
unfolding check_deps CheckedDeps
check_deps-KnownIn id seen [] = λ d c. absurd (ground arith)
check_deps-KnownIn id seen (x ∷ ds) =
    both-CheckedDeps (contains x seen ≡ true) (AllIn ds seen) (AllIn (x ∷ ds) seen) _ _
      (require-CheckedDeps (contains x seen) (unknown_dependency id x) tt)
      (check_deps-KnownIn id seen ds)
      (λ here rest d c. elim (Bool-cases (str_eq x d)) [
        | inl same ↦
            let equal : x ≡ d = ground (arith, eq_iff x d) in
            subst (λ y. contains y seen ≡ true) equal here
        | inr different ↦ rest d (rw different at c)
      ])

check_all_deps-KnownIn :
    (seen : List String) (ss : List Step)
    → CheckedDeps (All (KnownIn seen) ss) (check_all_deps seen ss)
unfolding check_all_deps CheckedDeps
check_all_deps-KnownIn seen [] = tt
check_all_deps-KnownIn seen (s ∷ ss) =
    both-CheckedDeps _ _ (All (KnownIn seen) (s ∷ ss)) _ _
      (check_deps-KnownIn s.id seen s.depends_on) (check_all_deps-KnownIn seen ss)
      (λ first rest. (first, rest))

-- A workflow that a submission can go through.
pub record IsLoaded (entries : List Entry) (flow : Workflow) : Type 0 where
  pub all_steps : flow.steps ≡ steps_in entries
  pub checked : Checked [] flow.steps
  pub known : All (KnownIn (ids_of flow.steps)) flow.steps
  pub order : List Step
  pub sorted : topo_order flow.steps ≡ ok order
  pub sound : IsOrder flow.steps order

abbrev pub entries_of : Document → List Entry
entries_of (mapping name entries) = entries
entries_of _ = []

-- The fault names a step that waits for itself.
abbrev pub Circular : Dict Step → Fault → Type 0
Circular steps (cycle k) = Reaches steps k k
Circular steps _ = ⊥

-- An acceptable workflow, a real circle, or one of the refusals of the checks.
abbrev pub Loaded : List Entry → Raises Fault Workflow → Type 0
Loaded entries (ok flow) = IsLoaded entries flow
Loaded entries (err fault) = IsRefusal fault ⊎ Circular (by_id (steps_in entries)) fault

-- No dependency is without a step, where all of them are known.
no_key_error :
    (ss : List Step) (k : String)
    → All (KnownIn (ids_of ss)) ss
    → Caused (by_id ss) (key_error k)
    → ⊥
unfolding lookup
no_key_error ss k known (unknown, (j, e)) = elim (index-All _ ss [] j e.step known e.found) [
  | inl f ↦ absurd (ground (arith, index-holds ss [] k (f k e.link)))
  | inr there ↦ absurd (ground arith)
]

Caused-Circular :
    (ss : List Step) (fault : Fault)
    → All (KnownIn (ids_of ss)) ss
    → Caused (by_id ss) fault
    → Circular (by_id ss) fault
Caused-Circular ss (cycle k) known c = c
Caused-Circular ss (key_error k) known c = absurd (no_key_error ss k known c)
Caused-Circular ss _ known c = elim c [ ]

sorted-Loaded :
    (name : String) (entries : List Entry) (ss : List Step) (r : Raises Fault (List Step))
    → ss ≡ steps_in entries
    → Checked [] ss
    → All (KnownIn (ids_of ss)) ss
    → topo_order ss ≡ r
    → Ordered ss r
    → Loaded entries (r >>= λ order. ok (record { name = name; steps = ss }))
sorted-Loaded name entries ss (ok order) e c known h i = record {
  all_steps = e;
  checked = c;
  known = known;
  order = order;
  sorted = h;
  sound = i;
}
sorted-Loaded name entries ss (err fault) e c known h i =
    inr (subst (λ x. Circular (by_id x) fault) e (Caused-Circular ss fault known i))

linked-Loaded :
    (name : String) (entries : List Entry) (ss : List Step) (r : Raises Fault (Unit {0}))
    → ss ≡ steps_in entries
    → Checked [] ss
    → CheckedDeps (All (KnownIn (ids_of ss)) ss) r
    → Loaded entries (r >> (topo_order ss >>= λ order. ok (record { name = name; steps = ss })))
unfolding CheckedDeps
linked-Loaded name entries ss (err fault) e c h = inl h
linked-Loaded name entries ss (ok u) e c h =
    sorted-Loaded name entries ss (topo_order ss) e c h refl (topo_order-Ordered ss)

stepped-Loaded :
    (name : String) (entries : List Entry) (r : Raises Fault (List Step))
    → CheckedSteps [] entries r
    → Loaded entries (
        r >>= λ ss.
        check_all_deps (ids_of ss) ss
        >> (topo_order ss >>= λ order. ok (record { name = name; steps = ss })))
unfolding CheckedSteps
stepped-Loaded name entries (err fault) h = inl h
stepped-Loaded name entries (ok ss) (e, c) =
    linked-Loaded name entries ss (check_all_deps (ids_of ss) ss) e c
      (check_all_deps-KnownIn (ids_of ss) ss)

guarded-Loaded :
    (entries : List Entry) (c : Raises Fault (Unit {0})) (P : Type 0) (r : Raises Fault Workflow)
    → CheckedDeps P c
    → Loaded entries r
    → Loaded entries (c >> r)
unfolding CheckedDeps
guarded-Loaded entries (ok u) P r h l = l
guarded-Loaded entries (err fault) P r h l = inl h

-- load_workflow returns a workflow of all the steps of the document only where each has an id of its
-- own, a role and a title or instructions, every dependency is one of the steps, and topo_order finds
-- an order of them. Else it raises one of the messages of its checks, or names a step that does depend
-- on itself through others; it never ends in a KeyError.
pub load_workflow-Loaded :
    (document : Document) → Loaded (entries_of document) (load_workflow document)
unfolding load_workflow
load_workflow-Loaded other = inl tt
load_workflow-Loaded (without_steps name) =
    guarded-Loaded [] _ _ (err no_steps) (require-CheckedDeps _ no_name tt) (inl tt)
load_workflow-Loaded (mapping name entries) =
    guarded-Loaded entries _ _ _
      (both-CheckedDeps _ _ (Unit {0}) _ _ (require-CheckedDeps (not (str_eq name "")) no_name tt)
        (require-CheckedDeps (not (is_list_empty entries)) no_steps tt) (λ a b. tt))
      (stepped-Loaded name entries (check_steps [] entries) (check_steps-CheckedSteps [] entries))
