-- ===== src/Handlers/Dependents.antt =====
-- Which jobs the completion of another one releases (handlers.py, `_unlock_dependents`).
use bit_cadence.Prelude.{
  ◌≡◌, refl, ap, String, true, false, none, some, [], ◌∷◌, arith, is_some, lookup, Dict, str_eq,
  eq_iff, Option-cases, Bool-cases, inl, inr, ◌⊎◌,
}
use bit_cadence.Board.{Job, is_waiting}
use bit_cadence.Handlers.Hub.{Hub, open_one, open_each, select_waiting, unlock_dependents}
use bit_cadence.Handlers.Turns.{opened, Between, open_one-lookup, Between-open_one}

abbrev Done : String → String → Dict Job → Dict Job → Type 0
Done task k jobs now = lookup k now ≡ opened task jobs (lookup k jobs)

opened-none : (task : String) (jobs : Dict Job) → opened task jobs none ≡ none
unfolding opened
opened-none task jobs = refl

pub opened-idle :
    (task : String) (jobs : Dict Job) (j : Job)
    → is_waiting j.status ≡ false
    → opened task jobs (some j) ≡ some j
unfolding opened
opened-idle task jobs j w = rw w refl

Done-none :
    (task k : String) (jobs now : Dict Job)
    → Between task jobs now
    → lookup k jobs ≡ none
    → Done task k jobs now
Done-none task k jobs now b e = ground (arith, b k, opened-none task jobs)

Done-idle :
    (task k : String) (j : Job) (jobs now : Dict Job)
    → Between task jobs now
    → lookup k jobs ≡ some j
    → is_waiting j.status ≡ false
    → Done task k jobs now
Done-idle task k j jobs now b e w = ground (arith, b k, opened-idle task jobs j w)

-- The turn of a row finishes it, and undoes none that is finished.
Done-open_one :
    (task k k' : String) (j : Job) (jobs : Dict Job) (h : Hub)
    → Between task jobs h.db.jobs
    → lookup k jobs ≡ some j
    → is_waiting j.status ≡ true
    → (str_eq k k' ≡ true) ⊎ Done task k' jobs h.db.jobs
    → Done task k' jobs (open_one task k j h).db.jobs
Done-open_one task k k' j jobs h b e w (inl same) =
    ground (arith, open_one-lookup task k k' j jobs h b e w, eq_iff k k')
Done-open_one task k k' j jobs h b e w (inr done) =
    ground (arith, open_one-lookup task k k' j jobs h b e w, eq_iff k k')

-- A row is among those still to come, or finished.
abbrev Due : String → String → Dict Job → Dict Job → Dict Job → Type 0
Due task k keys jobs now = (is_some (lookup k keys) ≡ true) ⊎ Done task k jobs now

Due-next :
    (task k k' : String) (i : Job) (keys jobs now now' : Dict Job)
    → (str_eq k k' ≡ true → Done task k' jobs now')
    → (Done task k' jobs now → Done task k' jobs now')
    → Due task k' ((k, i) ∷ keys) jobs now
    → Due task k' keys jobs now'
unfolding lookup
Due-next task k k' i keys jobs now now' hit kept (inr done) = inr (kept done)
Due-next task k k' i keys jobs now now' hit kept (inl due) = elim (Bool-cases (str_eq k k')) [
  | inl same ↦ inr (hit same)
  | inr other ↦ inl (ground arith)
]

open_each-Done :
    (task k' : String) (keys jobs : Dict Job) (h : Hub)
    → Between task jobs h.db.jobs
    → Due task k' keys jobs h.db.jobs
    → Done task k' jobs (open_each task (select_waiting keys jobs) h).db.jobs
unfolding select_waiting open_each lookup
open_each-Done task k' [] jobs h b (inl due) = absurd (ground arith)
open_each-Done task k' [] jobs h b (inr done) = done
open_each-Done task k' ((k, j) ∷ keys) jobs h b due = elim (Option-cases (lookup k jobs)) [
  | inl e ↦
      let rest : Due task k' keys jobs h.db.jobs =
        Due-next task k k' j keys jobs h.db.jobs h.db.jobs
          (λ same. Done-none task k' jobs h.db.jobs b (ground (arith, eq_iff k k'))) (λ d. d) due in
      rw e (open_each-Done task k' keys jobs h b rest)
  | inr (i, e) ↦ elim (Bool-cases (is_waiting i.status)) [
    | inr w ↦
        let rest : Due task k' keys jobs h.db.jobs =
          Due-next task k k' j keys jobs h.db.jobs h.db.jobs
            (λ same. Done-idle task k' i jobs h.db.jobs b (ground (arith, eq_iff k k')) w) (λ d. d)
            due in
        rw e (rw w (open_each-Done task k' keys jobs h b rest))
    | inl w ↦
        let next = open_one task k i h in
        let rest : Due task k' keys jobs next.db.jobs =
          Due-next task k k' j keys jobs h.db.jobs next.db.jobs
            (λ same. Done-open_one task k k' i jobs h b e w (inl same))
            (λ d. Done-open_one task k k' i jobs h b e w (inr d)) due in
        rw e (
          rw w
            (open_each-Done task k' keys jobs next (Between-open_one task k i jobs h b e w) rest))
  ]
]

-- The loop over the dependents of a task, whose rows are written one after the other, opens exactly
-- the rows that were waiting, are none of a score's, depend on the task, and depend only on
-- completed jobs, as the board stood before it; every other row stays as it was.
pub unlock_dependents-opened :
    (task k : String) (h : Hub)
    → lookup k (unlock_dependents task h).db.jobs ≡ opened task h.db.jobs (lookup k h.db.jobs)
unfolding unlock_dependents
unlock_dependents-opened task k h =
    open_each-Done task k h.db.jobs h.db.jobs h (λ i. inl refl)
      (elim (Option-cases (lookup k h.db.jobs)) [
        | inl e ↦ inr (Done-none task k h.db.jobs h.db.jobs (λ i. inl refl) e)
        | inr (j, e) ↦ inl (ap is_some e)
      ])
