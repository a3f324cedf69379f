-- ===== src/Handlers/Turns.antt =====
-- One turn of the loop over the waiting jobs (handlers.py, `_unlock_dependents`).
use bit_cadence.Prelude.{
  suc, ◌≡◌, ◌∙◌, refl, ap, String, Bool, true, false, ◌&&◌, Option, none, some, List, [], ◌∷◌,
  arith, length, all_by, if◌then◌else◌, lookup, lookup-insert, Dict, str_eq, eq_iff, Option-cases,
  Bool-cases, inl, inr, ◌⊎◌,
}
use bit_cadence.Board.{Job, is_waiting, is_completed}
use bit_cadence.Handlers.Hub.{Hub, next_status, distinct, rows_of, is_ready, open_row, open_one}

-- What a completion makes of one row, read off the board as it was.
unfoldable pub opened : String → Dict Job → Option Job → Option Job
unfolding is_ready
opened task jobs none = none
opened task jobs (some j) =
    some (
      if is_waiting j.status && is_ready task jobs j
      then record j { status = next_status j }
      else j)

abbrev mark : Option Job → Option Bool
mark none = none
mark (some j) = some (is_completed j.status)

-- The two boards have the same jobs, and the same ones are completed.
abbrev pub SameMarks : Dict Job → Dict Job → Type 0
SameMarks a b = (k : String) → mark (lookup k a) ≡ mark (lookup k b)

rows_of-SameMarks :
    (ds : List String) (a b : Dict Job)
    → SameMarks a b
    → (length (rows_of ds a) ≡ length (rows_of ds b))
      × (all_by (λ j. is_completed j.status) (rows_of ds a)
          ≡ all_by (λ j. is_completed j.status) (rows_of ds b))
unfolding rows_of
rows_of-SameMarks [] a b same = (refl, refl)
rows_of-SameMarks (d ∷ ds) a b same =
    let (n, c) = rows_of-SameMarks ds a b same in
    elim (Option-cases (lookup d a)) [
      | inl p ↦ elim (Option-cases (lookup d b)) [
        | inl q ↦ rw (p, q) (n, c)
        | inr (j, q) ↦ absurd (ground (arith, same d))
      ]
      | inr (i, p) ↦ elim (Option-cases (lookup d b)) [
        | inl q ↦ absurd (ground (arith, same d))
        | inr (j, q) ↦ rw (p, q) (ap suc n, ground (arith, same d, c))
      ]
    ]

is_ready-SameMarks :
    (task : String) (j : Job) (a b : Dict Job)
    → SameMarks a b
    → is_ready task a j ≡ is_ready task b j
unfolding is_ready
is_ready-SameMarks task j a b same =
    let (n, c) = rows_of-SameMarks (distinct j.depends_on) a b same in rw (n, c) refl

-- Each row of a board is as it was, or opened.
abbrev pub Between : String → Dict Job → Dict Job → Type 0
Between task jobs now =
    (k : String)
    → (lookup k now ≡ lookup k jobs) ⊎ (lookup k now ≡ opened task jobs (lookup k jobs))

mark-opened :
    (task : String) (jobs : Dict Job) (o : Option Job) → mark (opened task jobs o) ≡ mark o
unfolding opened
mark-opened task jobs none = refl
mark-opened task jobs (some j) = ground arith

Between-SameMarks :
    (task : String) (jobs now : Dict Job) → Between task jobs now → SameMarks now jobs
Between-SameMarks task jobs now b k = elim (b k) [
  | inl same ↦ ap mark same
  | inr changed ↦ ap mark changed ∙ mark-opened task jobs (lookup k jobs)
]

abbrev pub made_ready : Job → Job
made_ready j = record j { status = next_status j }

-- One turn of the loop, on a row that is as it was: it is opened, if it is ready.
fresh_turn :
    (task k k' : String) (j : Job) (h : Hub)
    → lookup k h.db.jobs ≡ some j
    → is_waiting j.status ≡ true
    → is_ready task h.db.jobs j ≡ true
    → lookup k' (open_one task k j h).db.jobs
      ≡ (if str_eq k k' then some (made_ready j) else lookup k' h.db.jobs)
unfolding open_one open_row
fresh_turn task k k' j h e w ready =
    rw (ready, e) (rw w (lookup-insert k k' (made_ready j) h.db.jobs))

-- A row that does not wait any more is left.
later_turn :
    (task k : String) (i j : Job) (h : Hub)
    → lookup k h.db.jobs ≡ some i
    → is_waiting i.status ≡ false
    → open_one task k j h ≡ h
unfolding open_one open_row
later_turn task k i j h e w = elim (Bool-cases (is_ready task h.db.jobs j)) [
  | inl ready ↦ rw (ready, e) (rw w refl)
  | inr wait ↦ rw wait refl
]

unready_turn :
    (task k : String) (j : Job) (h : Hub)
    → is_ready task h.db.jobs j ≡ false
    → open_one task k j h ≡ h
unfolding open_one
unready_turn task k j h wait = rw wait refl

pub opened-ready :
    (task : String) (jobs : Dict Job) (j : Job)
    → is_waiting j.status ≡ true
    → is_ready task jobs j ≡ true
    → opened task jobs (some j) ≡ some (made_ready j)
unfolding opened
opened-ready task jobs j w ready = rw (w, ready) refl

pub opened-unready :
    (task : String) (jobs : Dict Job) (j : Job)
    → is_ready task jobs j ≡ false
    → opened task jobs (some j) ≡ some j
unfolding opened
opened-unready task jobs j wait = rw wait (ground arith)

made_ready-waits : (j : Job) → is_waiting (made_ready j).status ≡ false
made_ready-waits j = ground arith

-- One turn of the loop: its row is opened, and the other rows stay.
pub open_one-lookup :
    (task k k' : String) (j : Job) (jobs : Dict Job) (h : Hub)
    → Between task jobs h.db.jobs
    → lookup k jobs ≡ some j
    → is_waiting j.status ≡ true
    → lookup k' (open_one task k j h).db.jobs
      ≡ (if str_eq k k' then opened task jobs (some j) else lookup k' h.db.jobs)
open_one-lookup task k k' j jobs h b e w =
    let same = is_ready-SameMarks task j h.db.jobs jobs (Between-SameMarks task jobs h.db.jobs b) in
    elim (Bool-cases (is_ready task jobs j)) [
      | inr wait ↦ ground (
        arith,
        unready_turn task k j h (same ∙ wait),
        opened-unready task jobs j wait,
        b k,
        eq_iff k k',
      )
      | inl ready ↦ elim (b k) [
        | inl kept ↦
            rw (opened-ready task jobs j w ready)
              (fresh_turn task k k' j h (kept ∙ e) w (same ∙ ready))
        | inr done ↦ ground (
          arith,
          later_turn task k (made_ready j) j h,
          opened-ready task jobs j w ready,
          made_ready-waits j,
          eq_iff k k',
        )
      ]
    ]

pub Between-open_one :
    (task k : String) (j : Job) (jobs : Dict Job) (h : Hub)
    → Between task jobs h.db.jobs
    → lookup k jobs ≡ some j
    → is_waiting j.status ≡ true
    → Between task jobs (open_one task k j h).db.jobs
Between-open_one task k j jobs h b e w k' =
    ground (arith, open_one-lookup task k k' j jobs h b e w, b k', eq_iff k k')
