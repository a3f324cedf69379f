-- ===== src/Workflows/Submission.antt =====
-- What `submit_workflow` submits (src/mco/orchestrator/workflows.py).
use bit_cadence.Prelude.{
  ◌≡◌, refl, String, true, false, ◌⊎◌, eq_iff, none, some, List, [], ◌∷◌, ◌++◌, arith, contains,
  Dict, lookup, insert, lookup-insert, str_eq, eq_refl, Bool-cases, inl, inr, ap, subst, sym,
  is_some, Raises, ok, err, ◌>>=◌, Option-cases,
}
use bit_cadence.Workflows.{
  Step, Document, Fault, failed_step, topo_order, Workflow, load_workflow, Request, Reply, jobs_of,
  request, created_id, send_step, submit_step, submit_all, submit_ordered, ordered_steps,
  submit_workflow,
}
use bit_cadence.Workflows.Paths.{Follows}
use bit_cadence.Workflows.Order.{IsOrder}
use bit_cadence.Workflows.Loading.{Loaded, load_workflow-Loaded, entries_of}

-- The table has a job for these ids and for no other.
abbrev pub JobsOf : List String → Dict String → Type 0
JobsOf ids job_ids = (k : String) → is_some (lookup k job_ids) ≡ contains k ids

-- the ids of the steps in front of those that were done before them, newest first
abbrev pub behind : List Step → List String → List String
behind [] before = before
behind (s ∷ ss) before = behind ss (s.id ∷ before)

-- The jobs of the dependencies, in their order.
abbrev pub Named : Dict String → List String → List String → Type 0
Named job_ids [] js = js ≡ []
Named job_ids (d ∷ ds) js =
    (j : String) × (rest : List String) × (lookup d job_ids ≡ some j)
    × (js ≡ j ∷ rest)
    × Named job_ids ds rest

-- Where the dependencies have their jobs, the table is not asked for an id that it has not.
pub jobs_of-Named :
    (before ds : List String) (job_ids : Dict String)
    → JobsOf before job_ids
    → ((d : String) → contains d ds ≡ true → contains d before ≡ true)
    → (js : List String) × (jobs_of job_ids ds ≡ ok js) × Named job_ids ds js
unfolding jobs_of
jobs_of-Named before [] job_ids f known = ([], refl, refl)
jobs_of-Named before (d ∷ ds) job_ids f known = elim (Option-cases (lookup d job_ids)) [
  | inl gone ↦ absurd (ground (arith, f d, known d (ground (arith, eq_refl d))))
  | inr (j, here) ↦
      let (js, e, named) = jobs_of-Named before ds job_ids f (λ x c. known x (ground arith)) in
      (j ∷ js, rw (here, e, jobs_of) refl, (j, js, here, refl, named))
]

insert-JobsOf :
    (before : List String) (job_ids : Dict String) (id j : String)
    → JobsOf before job_ids
    → JobsOf (id ∷ before) (insert id j job_ids)
insert-JobsOf before job_ids id j f k = elim (Bool-cases (str_eq id k)) [
  | inl same ↦ ground (arith, lookup-insert id k j job_ids)
  | inr other ↦ ground (arith, lookup-insert id k j job_ids, f k)
]

-- The gateway's answer has a job, by its id.
abbrev pub Accepts : Reply → String → Type 0
Accepts reply j = (reply.success ≡ true) × (reply.job_id ≡ some j) × (str_eq j "" ≡ false)

-- It has none.
abbrev pub Refuses : Reply → Type 0
Refuses reply = (reply.success ≡ false) ⊎ ((reply.job_id ≡ none) ⊎ (reply.job_id ≡ some ""))

created_id-some : (reply : Reply) (j : String) → created_id reply ≡ some j → Accepts reply j
unfolding created_id
created_id-some reply j e = (ground arith, ground arith, ground arith)

created_id-none : (reply : Reply) → created_id reply ≡ none → Refuses reply
unfolding created_id
created_id-none reply e = elim (Bool-cases reply.success) [
  | inr failing ↦ inl failing
  | inl fine ↦ elim (Option-cases reply.job_id) [
    | inl nothing ↦ inr (inl nothing)
    | inr (j, named) ↦ elim (Bool-cases (str_eq j "")) [
      | inl blank ↦ inr (inr (rw named (ap some ((eq_iff j "").0 blank))))
      | inr filled ↦ absurd (ground (arith, e))
    ]
  ]
]

module _ {W : Type 0} (send : Request → W → Reply × W) (name run : String) where
  -- From a table and a state of the gateway, one request for each of the steps, with the jobs of its
  -- dependencies, each answered with a job that then stands in the table.
  abbrev pub Created : List Step → Dict String → W → Dict String → W → Type 0
  Created [] job_ids w after w' = (after ≡ job_ids) × (w' ≡ w)
  Created (s ∷ ss) job_ids w after w' =
      (js : List String) × (j : String) × Named job_ids s.depends_on js
      × Accepts (send (request name run s js) w).0 j
      × Created ss (insert s.id j job_ids) (send (request name run s js) w).1 after w'

  -- All of the steps have their jobs; or the gateway has answered the request for one without a job,
  -- and nothing was sent after it, and the table of the message has the jobs of the steps before it.
  pub Submitted :
      List String → List Step → Dict String → W → Raises Fault (Dict String) × W → Type 0
  Submitted before ss job_ids w (ok after, w') =
      JobsOf (behind ss before) after × Created ss job_ids w after w'
  Submitted before ss job_ids w (err (failed_step id created), w') =
      (front : List Step) × (s : Step) × (back : List Step) × (ss ≡ front ++ (s ∷ back))
      × (s.id ≡ id)
      × JobsOf (behind front before) created
      × ((js : List String) × (v : W) × Created front job_ids w created v
          × Named created s.depends_on js
          × Refuses (send (request name run s js) v).0
          × (w' ≡ (send (request name run s js) v).1))
  Submitted before ss job_ids w (err _, w') = ⊥

  later-Submitted :
      (before : List String) (s : Step) (ss : List Step) (job_ids : Dict String) (w : W)
      (js : List String) (j : String) (r : Raises Fault (Dict String)) (w' : W)
      → Named job_ids s.depends_on js
      → Accepts (send (request name run s js) w).0 j
      → Submitted
          (s.id ∷ before)
          ss
          (insert s.id j job_ids)
          (send (request name run s js) w).1
          (r, w')
      → Submitted before (s ∷ ss) job_ids w (r, w')
  unfolding Submitted
  later-Submitted before s ss job_ids w js j (ok after) w' named accepted (f, more) =
      (f, (js, j, named, accepted, more))
  later-Submitted before s ss job_ids w js j (err (failed_step id created)) w' named accepted
        (front, x, back, e, i, f, (is, v, more, known, refused, end)) =
      (
        s ∷ front,
        x,
        back,
        ap (λ y. s ∷ y) e,
        i,
        f,
        (is, v, (js, j, named, accepted, more), known, refused, end),
      )
  later-Submitted before s ss job_ids w js j (err _) w' named accepted h = elim h [ ]

  submit_all-failed :
      (s : Step) (ss : List Step) (js : List String) (job_ids : Dict String) (w : W)
      → jobs_of job_ids s.depends_on ≡ ok js
      → created_id (send (request name run s js) w).0 ≡ none
      → submit_all send name run (s ∷ ss) job_ids w
        ≡ (err (failed_step s.id job_ids), (send (request name run s js) w).1)
  unfolding submit_all submit_step send_step
  submit_all-failed s ss js job_ids w e c = ground (arith, e, c)

  submit_all-created :
      (s : Step) (ss : List Step) (js : List String) (job_ids : Dict String) (w : W) (j : String)
      → jobs_of job_ids s.depends_on ≡ ok js
      → created_id (send (request name run s js) w).0 ≡ some j
      → submit_all send name run (s ∷ ss) job_ids w
        ≡ submit_all send name run ss (insert s.id j job_ids) (send (request name run s js) w).1
  unfolding submit_all submit_step send_step
  submit_all-created s ss js job_ids w j e c = ground (arith, e, c)

  pub submit_all-Submitted :
      (before : List String) (ss : List Step) (job_ids : Dict String) (w : W)
      → Follows before ss
      → JobsOf before job_ids
      → Submitted before ss job_ids w (submit_all send name run ss job_ids w)
  unfolding submit_all Submitted
  submit_all-Submitted before [] job_ids w order f = (f, (refl, refl))
  submit_all-Submitted before (s ∷ ss) job_ids w (fresh, known, order) f =
      let (js, e, named) = jobs_of-Named before s.depends_on job_ids f known in
      elim (Option-cases (created_id (send (request name run s js) w).0)) [
        | inl failed ↦
            subst (Submitted before (s ∷ ss) job_ids w)
              (sym (submit_all-failed s ss js job_ids w e failed))
              (
                [],
                s,
                ss,
                refl,
                refl,
                f,
                (
                  js,
                  w,
                  (refl, refl),
                  named,
                  created_id-none (send (request name run s js) w).0 failed,
                  refl,
                ),
              )
        | inr (j, created) ↦
            let rest =
              submit_all send name run ss (insert s.id j job_ids)
                (send (request name run s js) w).1 in
            subst (Submitted before (s ∷ ss) job_ids w)
              (sym (submit_all-created s ss js job_ids w j e created))
              (later-Submitted before s ss job_ids w js j rest.0 rest.1 named
                (created_id-some (send (request name run s js) w).0 j created)
                (submit_all-Submitted (s.id ∷ before) ss (insert s.id j job_ids) _ order
                  (insert-JobsOf before job_ids s.id j f)))
      ]

module _ {W : Type 0} (send : Request → W → Reply × W) (run : String) where
  -- With a workflow that is refused, nothing is sent and the error is passed on; one that is accepted has
  -- an order of its steps, and its jobs are created in that order.
  abbrev pub Outcome : W → Raises Fault Workflow → Raises Fault (Dict String) × W → Type 0
  Outcome w (err fault) result = result ≡ (err fault, w)
  Outcome w (ok flow) result =
      (order : List Step) × IsOrder flow.steps order
      × Submitted send flow.name run [] order [] w result

  submit-Outcome :
      (document : Document) (w : W) (r : Raises Fault Workflow)
      → Loaded (entries_of document) r
      → Outcome w r (
          submit_ordered send run (r >>= λ f. topo_order f.steps >>= λ order. ok (f.name, order)) w)
  unfolding submit_ordered lookup
  submit-Outcome document w (err fault) l = refl
  submit-Outcome document w (ok flow) l = rw l.sorted (
    l.order,
    l.sound,
    submit_all-Submitted send flow.name run [] l.order [] w l.sound.follows (λ k. refl),
  )

-- Whatever the gateway answers, submit_workflow sends nothing and raises the same error where
-- load_workflow refuses the document. Else it goes through the steps in an order that puts each behind
-- its dependencies, and sends for each a request with the jobs of its dependencies. It returns the jobs of
-- all the ids where every answer is a success with an id that is not empty; or it raises for the first
-- step whose answer is not, sends nothing after it, and names the jobs of exactly the steps before it.
-- It never looks a dependency up that has no job.
pub submit_workflow-Outcome :
    {W : Type 0} (send : Request → W → Reply × W) (run : String) (document : Document) (w : W)
    → Outcome send run w (load_workflow document) (submit_workflow send run document w)
unfolding submit_workflow ordered_steps
submit_workflow-Outcome send run document w =
    submit-Outcome send run document w (load_workflow document) (load_workflow-Loaded document)
