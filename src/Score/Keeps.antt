-- ===== src/Score/Keeps.antt =====
-- The steps of a run that start nothing keep it sound (scores.py, `finish`, `review`, `decide_checkpoint`).
use bit_cadence.Prelude.{
  ℕ, ◌+◌, ◌≡◌, refl, ap, ◌∙◌, String, Bool, true, false, ◌||◌, not, Option, none, some, List, [],
  ◌∷◌, arith, lookup, Dict, str_eq, length, Bool-cases, inl, inr, is_blank,
}
use bit_cadence.Score.Policy.{GateStatus, is_approved}
use bit_cadence.Score.Run.{
  Entry, Run, Token, TaskStatus, running, review, accepted, is_active, is_accepted, is_claim,
  same_status, same_person, is_evidence, finish_entry,
}
use bit_cadence.Score.Steps.{
  Verification, retried, is_bound, log_each, accept, judge, review_entry, reviewed_before,
  reject_sources,
}
use bit_cadence.Score.Checkpoints.{note_decision}
use bit_cadence.Score.Invariant.{IsOwn, IsSound, Settles}
use bit_cadence.Score.Frames.{still-IsSound, settle-IsSound, retried-Settles, retried-IsOwn}

finished-Settles :
    (e : Entry) (f : Entry)
    → f.task ≡ e.task
    → is_active e.status ≡ true
    → is_accepted f.status ≡ false
    → Settles e f
finished-Settles e f s a n = record {
  same = s;
  active = λ h. a;
  stays = λ h. absurd (ground arith);
  begun = λ h. absurd (ground arith);
}

claim-status :
    (token : Option Token) (s : TaskStatus) (now : ℕ) (e : Entry)
    → is_claim token s now e ≡ true
    → same_status e.status s ≡ true
unfolding is_claim
claim-status token s now e h = ground arith

running-active : (s : TaskStatus) → same_status s running ≡ true → is_active s ≡ true
running-active s h = ground arith

review-active : (s : TaskStatus) → same_status s review ≡ true → is_active s ≡ true
review-active s h = ground arith

pub finish_entry-IsSound :
    (k : String) (token : Option Token) (actor : String) (evidence : Dict String) (now : ℕ)
    (r : Run) (e : Entry)
    → lookup k r.states ≡ some e
    → IsSound r
    → IsSound (finish_entry k token actor evidence now r e).1
unfolding finish_entry
finish_entry-IsSound k token actor evidence now r e p i =
    elim (Bool-cases (is_claim token running now e)) [
      | inr stale ↦ rw (stale, finish_entry) i
      | inl claim ↦ elim (Bool-cases (same_person e.author actor)) [
        | inr other ↦ rw (claim, other, finish_entry) i
        | inl author ↦ elim (Bool-cases (is_evidence e.task.evidence evidence)) [
          | inr bad ↦ rw (claim, author, bad, finish_entry) i
          | inl good ↦
              let a = running-active e.status (claim-status token running now e claim) in
              let v = i.own k e p in
              let f : Entry = record e {
                status = review;
                evidence = some evidence;
                deadline = some (now + e.task.timeout_seconds);
              } in
              rw (claim, author, good, finish_entry)
                (settle-IsSound r _ k e f (ground arith) refl p (finished-Settles e f refl a refl)
                  (record {
                    tries = v.tries;
                    more_tries = λ h. absurd (ground arith);
                    claimed = λ h. v.claimed a;
                    written = λ h. v.written a;
                    timed = λ h. refl;
                  })
                  i)
        ]
      ]
    ]

-- The events of a verdict change no entry.
log_each-IsSound :
    (ts : List String) (k actor : String) (r : Run) → IsSound r → IsSound (log_each ts k actor r)
log_each-IsSound [] k actor r i = i
log_each-IsSound (t ∷ ts) k actor r i =
    log_each-IsSound ts k actor _ (still-IsSound r _ (ground arith) refl i)

lookup-log_each :
    (ts : List String) (k actor : String) (r : Run) → (log_each ts k actor r).states ≡ r.states
lookup-log_each [] k actor r = refl
lookup-log_each (t ∷ ts) k actor r = lookup-log_each ts k actor _

accepted_entry-Settles :
    (e : Entry) → is_active e.status ≡ true → Settles e (record e { status = accepted })
accepted_entry-Settles e a = record {
  same = refl;
  active = λ h. absurd (ground arith);
  stays = λ h. refl;
  begun = λ h. ground arith;
}

accepted_entry-IsOwn :
    (r r' : Run) (k : String) (e : Entry)
    → IsOwn r k e
    → IsOwn r' k (record e { status = accepted })
accepted_entry-IsOwn r r' k e v = record {
  tries = v.tries;
  more_tries = λ h. absurd (ground arith);
  claimed = λ h. absurd (ground arith);
  written = λ h. absurd (ground arith);
  timed = λ h. absurd (ground arith);
}

accept-IsSound :
    (k actor : String) (r : Run) (e : Entry) (o : Option Verification)
    → lookup k r.states ≡ some e
    → is_active e.status ≡ true
    → IsSound r
    → IsSound (accept k actor r e o).1
unfolding accept
accept-IsSound k actor r e none p a i = i
accept-IsSound k actor r e (some v) p a i = elim (Bool-cases (is_bound r k e v)) [
  | inr other ↦ rw (other, accept) i
  | inl bound ↦ elim (Bool-cases (str_eq v.reviewer_id actor)) [
    | inr wrong ↦ rw (bound, wrong, accept) i
    | inl chosen ↦
        let q = lookup-log_each v.event_types k actor r in
        let logged = log_each-IsSound v.event_types k actor r i in
        let p' = ap (lookup k) q ∙ p in
        rw (bound, chosen, accept)
          (settle-IsSound (log_each v.event_types k actor r) _ k e (record e { status = accepted })
            (ground arith) refl p' (accepted_entry-Settles e a)
            (accepted_entry-IsOwn (log_each v.event_types k actor r) _ k e (logged.own k e p'))
            logged)
  ]
]

judge-IsSound :
    (k actor : String) (passed : Bool) (o : Option Verification) (claimed : Bool) (r : Run)
    (e : Entry)
    → lookup k r.states ≡ some e
    → is_active e.status ≡ true
    → IsSound r
    → IsSound (judge k actor passed o claimed r e).1
unfolding judge
judge-IsSound k actor passed o true r e p a i = i
judge-IsSound k actor true o false r e p a i = accept-IsSound k actor r e o p a i
judge-IsSound k actor false o false r e p a i =
    settle-IsSound r _ k e (retried e) (ground arith) refl p (retried-Settles e (ground arith))
      (retried-IsOwn r _ k e (i.own k e p)) i

pub review_entry-IsSound :
    (k : String) (token : Option Token) (actor role : String) (passed : Bool)
    (o : Option Verification) (claimed : Bool) (now : ℕ) (r : Run) (e : Entry)
    → lookup k r.states ≡ some e
    → IsSound r
    → IsSound (review_entry k token actor role passed o claimed now r e).1
unfolding review_entry
review_entry-IsSound k token actor role passed o claimed now r e p i =
    elim (Bool-cases (is_claim token review now e)) [
      | inr stale ↦ rw (stale, review_entry) i
      | inl claim ↦ elim (Bool-cases (is_blank actor)) [
        | inl blank ↦ rw (claim, blank, review_entry) i
        | inr named ↦
            elim (Bool-cases (same_person e.author actor || not (str_eq role e.task.review_role))) [
              | inl own ↦ rw (claim, named, own, review_entry) i
              | inr free ↦
                  elim (Bool-cases (
                    reviewed_before (length r.states) (reject_sources r.states []) r.review_actors
                      actor (lookup k (reject_sources r.states [])))) [
                        | inl again ↦ rw (claim, named, free, again, review_entry) i
                        | inr fresh ↦
                            let a =
                              review-active e.status (claim-status token review now e claim) in
                            rw (claim, named, free, fresh, review_entry)
                              (judge-IsSound k actor passed o claimed _ e p a
                                (still-IsSound r _ (ground arith) refl i))
                      ]
            ]
      ]
    ]

pub note_decision-IsSound :
    (k actor : String) (d : GateStatus) (r : Run) (e : Entry)
    → lookup k r.states ≡ some e
    → IsSound r
    → IsSound (note_decision k actor d r e)
unfolding note_decision
note_decision-IsSound k actor d r e p i =
    let v = i.own k e p in
    settle-IsSound r _ k e (record e { is_approved = is_approved d }) (ground arith) refl p
      (record { same = refl; active = λ h. h; stays = λ h. h; begun = λ h. ground arith })
      (record {
        tries = v.tries;
        more_tries = v.more_tries;
        claimed = v.claimed;
        written = v.written;
        timed = v.timed;
      })
      i
