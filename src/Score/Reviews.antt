-- ===== src/Score/Reviews.antt =====
-- Who may accept a task, and on what (src/mco/orchestrator/scores.py, `review`).
use bit_cadence.Prelude.{
  ℕ, ◌≡◌, refl, ◌∙◌, String, Bool, true, false, ◌&&◌, not, Option, none, some, List, [], ◌∷◌, arith,
  leb, ltb, lookup, insert, lookup-insert, str_eq, eq_refl, Bool-cases, inl, inr, is_ok, is_blank,
  length,
}
use bit_cadence.Score.Run.{
  Entry, Run, Token, review, accepted, same_person, is_claim, log, verified,
}
use bit_cadence.Score.Steps.{
  Verification, reviewed_before, reject_sources, is_bound, accept, judge, review_entry, review_task,
  log_each,
}

-- The server has verified this attempt of the task for this reviewer.
abbrev pub is_verified : Run → String → String → Entry → Option Verification → Bool
is_verified r k actor e none = false
is_verified r k actor e (some v) = is_bound r k e v && str_eq v.reviewer_id actor

-- The reviewer is named, is not the author, has the role, and has reviewed none of the tasks that the
-- task repairs.
abbrev pub is_independent : Run → String → String → String → Entry → Bool
is_independent r k actor role e =
    not (is_blank actor)
    && not (same_person e.author actor)
    && str_eq role e.task.review_role
    && not (
        reviewed_before (length r.states) (reject_sources r.states []) r.review_actors actor
          (lookup k (reject_sources r.states [])))

log_each-states :
    (ts : List String) (k actor : String) (r : Run) → (log_each ts k actor r).states ≡ r.states
log_each-states [] k actor r = refl
log_each-states (t ∷ ts) k actor r = log_each-states ts k actor (log (verified t) k (some actor) r)

judge-verified :
    (k actor : String) (verification : Option Verification) (claimed : Bool) (r : Run) (e : Entry)
    → is_ok (judge k actor true verification claimed r e).0
      ≡ (not claimed && is_verified r k actor e verification)
unfolding judge accept
judge-verified k actor none claimed r e = ground arith
judge-verified k actor (some v) claimed r e = ground arith

judge-accepts :
    (k actor : String) (verification : Option Verification) (claimed : Bool) (r : Run) (e : Entry)
    → is_ok (judge k actor true verification claimed r e).0 ≡ true
    → lookup k (judge k actor true verification claimed r e).1.states
      ≡ some (record e { status = accepted })
unfolding judge accept
judge-accepts k actor verification true r e h = absurd (ground arith)
judge-accepts k actor none false r e h = absurd (ground arith)
judge-accepts k actor (some v) false r e h = elim (Bool-cases (is_bound r k e v)) [
  | inr stray ↦ absurd (ground (arith, rw (stray, judge, accept) at h))
  | inl bound ↦ elim (Bool-cases (str_eq v.reviewer_id actor)) [
    | inr stranger ↦ absurd (ground (arith, rw (bound, stranger, judge, accept) at h))
    | inl chosen ↦
        rw (bound, chosen)
          (lookup-insert k k (record e { status = accepted })
              (log_each v.event_types k actor r).states
            ∙ ground (arith, eq_refl k))
  ]
]

review_entry-verified :
    (k : String) (token : Option Token) (actor role : String) (verification : Option Verification)
    (claimed : Bool) (now : ℕ) (r : Run) (e : Entry)
    → is_ok (review_entry k token actor role true verification claimed now r e).0 ≡ (
        is_claim token review now e
        && is_independent r k actor role e
        && not claimed
        && is_verified r k actor e verification)
unfolding review_entry
review_entry-verified k token actor role verification claimed now r e =
    let before =
      reviewed_before (length r.states) (reject_sources r.states []) r.review_actors actor
        (lookup k (reject_sources r.states [])) in
    elim (Bool-cases (is_claim token review now e)) [
      | inr stale ↦ rw stale refl
      | inl fresh ↦ elim (Bool-cases (is_blank actor)) [
        | inl blank ↦ rw (fresh, blank) refl
        | inr named ↦ elim (Bool-cases (same_person e.author actor)) [
          | inl own ↦ rw (fresh, named, own) refl
          | inr other ↦ elim (Bool-cases (str_eq role e.task.review_role)) [
            | inr wrong ↦ rw (fresh, named, other, wrong) refl
            | inl right ↦ elim (Bool-cases before) [
              | inl again ↦ rw (fresh, named, other, right, again) refl
              | inr first ↦
                  rw (fresh, named, other, right, first)
                    (judge-verified k actor verification claimed
                      (record r { review_actors = insert k actor r.review_actors }) e)
            ]
          ]
        ]
      ]
    ]

review_entry-judge :
    (k : String) (token : Option Token) (actor role : String) (verification : Option Verification)
    (claimed : Bool) (now : ℕ) (r : Run) (e : Entry)
    → is_claim token review now e ≡ true
    → is_independent r k actor role e ≡ true
    → review_entry k token actor role true verification claimed now r e
      ≡ judge k actor true verification claimed
          (record r { review_actors = insert k actor r.review_actors })
          e
unfolding review_entry
review_entry-judge k token actor role verification claimed now r e fresh i =
    let named : is_blank actor ≡ false = ground arith in
    let other : same_person e.author actor ≡ false = ground arith in
    let right : str_eq role e.task.review_role ≡ true = ground arith in
    let first : reviewed_before (length r.states) (reject_sources r.states []) r.review_actors actor
          (lookup k (reject_sources r.states []))
        ≡ false =
      ground arith in
    rw (fresh, named, other, right, first) refl

-- When a review that passes a task is taken, by the tests that are made, and what it leaves.
pub review_task-tests :
    (k : String) (token : Option Token) (actor role : String) (verification : Option Verification)
    (claimed : Bool) (now : ℕ) (r : Run) (e : Entry)
    → lookup k r.states ≡ some e
    → let answer = review_task k token actor role true verification claimed now r in
      (is_ok answer.0 ≡ (
        leb r.clock now
        && is_claim token review now e
        && is_independent r k actor role e
        && not claimed
        && is_verified r k actor e verification))
      × (is_ok answer.0 ≡ true → lookup k answer.1.states ≡ some (record e { status = accepted }))
unfolding review_task
review_task-tests k token actor role verification claimed now r e p =
    let s : Run = record r { clock = now } in
    let taken = review_entry-verified k token actor role verification claimed now s e in
    elim (Bool-cases (ltb now r.clock)) [
      | inl back ↦
          let q : leb r.clock now ≡ false = ground arith in
          rw (back, q) (refl, λ h. absurd (ground arith))
      | inr on ↦
          let q : leb r.clock now ≡ true = ground arith in
          rw (on, p, q)
            (
              taken,
              λ h.
                  rw
                    (review_entry-judge k token actor role verification claimed now s e
                      (ground arith) (ground arith))
                    (judge-accepts k actor verification claimed
                      (record s { review_actors = insert k actor s.review_actors }) e
                      (ground arith)),
            )
    ]
