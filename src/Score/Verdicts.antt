-- ===== src/Score/Verdicts.antt =====
-- A review that passes a task is taken for the right reasons, and for no other
-- (src/mco/orchestrator/scores.py, `review`).
use bit_cadence.Prelude.{
  ℕ, ◌≤◌, ◌<◌, ◌≡◌, ◌≢◌, refl, sym, ap, ◌∙◌, String, Bool, true, false, ◌&&◌, not, Option, none,
  some, [], arith, leb, lookup, str_eq, eq_iff, Bool-cases, inl, inr, is_ok, is_blank, length, ◌↔◌,
}
use bit_cadence.Score.Run.{
  Entry, Run, Token, TaskStatus, review, accepted, same_token, same_status, same_person, is_claim,
  before,
}
use bit_cadence.Score.Steps.{Verification, reviewed_before, reject_sources, is_bound, review_task}
use bit_cadence.Score.Sources.{
  source_of, IsFresh, sources_lem, same_person_iff, reviewed_before-fresh, reviewed_before-found,
}
use bit_cadence.Score.Reviews.{is_verified, is_independent, review_task-tests}

-- The server has verified this attempt of the task, in this run and score, for this reviewer.
abbrev pub Bound : Run → String → Entry → String → Option Verification → Type 0
Bound r k e actor verification =
    (v : Verification) × (verification ≡ some v)
    × (v.run_id ≡ r.run_id)
    × (v.task_id ≡ k)
    × (v.attempt ≡ e.attempt)
    × (v.score_digest ≡ r.fingerprint)
    × (v.reviewer_id ≡ actor)

-- What a review that passes a task needs of the run, the call and the server's verification.
pub record IsFit (k : String) (token : Option Token) (actor role : String)
    (verification : Option Verification) (claimed : Bool) (now : ℕ) (r : Run) (e : Entry)
    : Type 0 where
  pub clock : r.clock ≤ now
  pub current : e.token ≡ token
  pub status : e.status ≡ review
  pub deadline : (t : ℕ) × (e.deadline ≡ some t) × (now < t)
  pub named : is_blank actor ≡ false
  pub other : e.author ≢ some actor
  pub right : role ≡ e.task.review_role
  pub fresh : IsFresh r.states r.review_actors actor (length r.states) (source_of k r.states)
  pub unclaimed : claimed ≡ false
  pub verified : Bound r k e actor verification

TaskStatus-review : (s : TaskStatus) → same_status s review ≡ true → s ≡ review
TaskStatus-review s h = ground arith

same_token_iff : (a b : Option Token) → (same_token a b ≡ true) ↔ (a ≡ b)
same_token_iff none none = ground arith
same_token_iff none (some b) = ground arith
same_token_iff (some a) none = ground arith
same_token_iff (some a) (some b) =
    ground (arith, eq_iff a.run_id b.run_id, eq_iff a.digest b.digest, eq_iff a.task_id b.task_id)

before-some : (now : ℕ) (o : Option ℕ) → before now o ≡ true → (t : ℕ) × (o ≡ some t) × (now < t)
before-some now none h = absurd (ground arith)
before-some now (some t) h = (t, refl, ground arith)

is_verified-Bound :
    (r : Run) (k actor : String) (e : Entry) (verification : Option Verification)
    → is_verified r k actor e verification ≡ true
    → Bound r k e actor verification
unfolding is_bound
is_verified-Bound r k actor e none h = absurd (ground (arith, h))
is_verified-Bound r k actor e (some v) h = (
  v,
  refl,
  ground (arith, h, eq_iff v.run_id r.run_id),
  ground (arith, h, eq_iff v.task_id k),
  ground (arith, h),
  ground (arith, h, eq_iff v.score_digest r.fingerprint),
  ground (arith, h, eq_iff v.reviewer_id actor),
)

Bound-is_verified :
    (r : Run) (k actor : String) (e : Entry) (verification : Option Verification)
    → Bound r k e actor verification
    → is_verified r k actor e verification ≡ true
unfolding is_bound
Bound-is_verified r k actor e none (v, given, a, b, c, d, f) = absurd (ground (arith, given))
Bound-is_verified r k actor e (some w) (v, given, a, b, c, d, f) = ground (
  arith,
  given,
  eq_iff w.run_id r.run_id,
  eq_iff w.task_id k,
  eq_iff w.score_digest r.fingerprint,
  eq_iff w.reviewer_id actor,
)

module _ (k : String) (token : Option Token) (actor role : String)
    (verification : Option Verification) (claimed : Bool) (now : ℕ) (r : Run) (e : Entry) where
  passes : Bool
  passes =
      leb r.clock now
      && is_claim token review now e
      && is_independent r k actor role e
      && not claimed
      && is_verified r k actor e verification

  is_seen : Bool
  is_seen =
      reviewed_before (length r.states) (reject_sources r.states []) r.review_actors actor
        (lookup k (reject_sources r.states []))

  unseen :
      is_seen ≡ false
      → IsFresh r.states r.review_actors actor (length r.states) (source_of k r.states)
  unfolding is_seen
  unseen h =
      reviewed_before-fresh r.states r.review_actors actor (length r.states) (source_of k r.states)
        (ap (reviewed_before (length r.states) (reject_sources r.states []) r.review_actors actor)
            (sym (sources_lem k r.states))
          ∙ h)

  not_seen :
      IsFresh r.states r.review_actors actor (length r.states) (source_of k r.states)
      → is_seen ≡ false
  unfolding is_seen
  not_seen fresh = elim (Bool-cases is_seen) [
    | inr unknown ↦ unknown
    | inl seen ↦
        let (m, j, lt, at_j, found) =
          reviewed_before-found r.states r.review_actors actor (length r.states)
            (source_of k r.states)
            (ap
                (reviewed_before (length r.states) (reject_sources r.states []) r.review_actors
                  actor)
                (sym (sources_lem k r.states))
              ∙ seen) in
        absurd (fresh m j lt at_j found)
  ]

  passes-IsFit : passes ≡ true → IsFit k token actor role verification claimed now r e
  unfolding passes is_claim is_seen
  passes-IsFit h = record {
    clock = ground (arith, h);
    current = ground (arith, h, same_token_iff e.token token);
    status = TaskStatus-review e.status (ground (arith, h));
    deadline = before-some now e.deadline (ground (arith, h));
    named = ground (arith, h);
    other = λ own. ground (arith, h, own, (same_person_iff e.author actor).1 own);
    right = ground (arith, h, eq_iff role e.task.review_role);
    fresh = unseen (ground (arith, h));
    unclaimed = ground (arith, h);
    verified = is_verified-Bound r k actor e verification (ground (arith, h));
  }

  IsFit-passes : IsFit k token actor role verification claimed now r e → passes ≡ true
  unfolding passes is_claim is_seen
  IsFit-passes f =
      let (t, given, early) = f.deadline in
      let clock : leb r.clock now ≡ true = ground (arith, f.clock) in
      let current : same_token e.token token ≡ true = (same_token_iff e.token token).1 f.current in
      let status : same_status e.status review ≡ true = ap (λ x. same_status x review) f.status in
      let live : before now e.deadline ≡ true = rw given (ground (arith, early)) in
      let other : same_person e.author actor ≡ false =
        elim (Bool-cases (same_person e.author actor)) [
          | inl own ↦ absurd (f.other ((same_person_iff e.author actor).0 own))
          | inr apart ↦ apart
        ] in
      let right : str_eq role e.task.review_role ≡ true =
        (eq_iff role e.task.review_role).1 f.right in
      let first : is_seen ≡ false = not_seen f.fresh in
      let bound = Bound-is_verified r k actor e verification f.verified in
      rw (clock, current, status, live, f.named, other, right, first, f.unclaimed, bound) refl

-- A review that passes a task of the run is taken exactly where the clock has not moved back, the token is that
-- of the task, which is in review and before its deadline, the reviewer is named, is not its author, has the
-- task's review role, and is not the last on record to have reviewed any task that one comes to by going back
-- from this one, each time to the last task that has the one before as its `on_reject`, by as many steps as
-- the run has tasks; the worker's own word is not handed in; and the server's verification is of this
-- run, task, attempt and score and for this reviewer. The task is accepted then.
pub review_task-verified :
    (k : String) (token : Option Token) (actor role : String) (verification : Option Verification)
    (claimed : Bool) (now : ℕ) (r : Run) (e : Entry)
    → lookup k r.states ≡ some e
    → let answer = review_task k token actor role true verification claimed now r in
      ((is_ok answer.0 ≡ true) ↔ IsFit k token actor role verification claimed now r e)
      × (is_ok answer.0 ≡ true → lookup k answer.1.states ≡ some (record e { status = accepted }))
unfolding passes
review_task-verified k token actor role verification claimed now r e p =
    let (taken, left) = review_task-tests k token actor role verification claimed now r e p in
    (
      (
        λ h. passes-IsFit k token actor role verification claimed now r e (sym taken ∙ h),
        λ f. taken ∙ IsFit-passes k token actor role verification claimed now r e f,
      ),
      left,
    )
