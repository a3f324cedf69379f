-- ===== src/Score/Sources.antt =====
-- The tasks that a task repairs, one after the other, and who has reviewed them
-- (src/mco/orchestrator/scores.py, `review`).
use bit_cadence.Prelude.{
  ℕ, zero, suc, ◌<◌, ◌≡◌, ◌≢◌, refl, sym, ap, ◌∙◌, String, Bool, true, false, ◌&&◌, not, Option,
  none, some, [], ◌∷◌, arith, lookup, insert, lookup-insert, Dict, str_eq, eq_iff, Bool-cases, inl,
  inr, ◌↔◌, if◌then◌else◌,
}
use bit_cadence.Score.Run.{Entry, same_person}
use bit_cadence.Score.Steps.{reviewed_before, reject_sources}

-- the task repairs `t`: it has it as its `on_reject`
abbrev pub repairs : String → Option String → Bool
repairs t none = false
repairs t (some x) = str_eq x t && not (str_eq x "")

abbrev pub or_later : Option String → Option String → Option String
or_later none o = o
or_later (some k) o = some k

-- the last of the run's tasks that has `t` as its `on_reject`
unfoldable pub source_of : String → Dict Entry → Option String
source_of t [] = none
source_of t ((k, e) ∷ rest) =
    or_later (source_of t rest) (if repairs t e.task.on_reject then some k else none)

-- so many tasks further back
unfoldable pub back_from : ℕ → Dict Entry → Option String → Option String
back_from n states none = none
back_from zero states (some p) = some p
back_from (suc n) states (some p) = back_from n states (source_of p states)

abbrev noted : String → Option String → Dict String → Dict String
noted k none found = found
noted k (some x) found = if str_eq x "" then found else insert x k found

reject_sources-step :
    (k : String) (e : Entry) (rest : Dict Entry) (found : Dict String) (o : Option String)
    → e.task.on_reject ≡ o
    → reject_sources ((k, e) ∷ rest) found ≡ reject_sources rest (noted k o found)
unfolding reject_sources
reject_sources-step k e rest found none q = rw (q, reject_sources) refl
reject_sources-step k e rest found (some x) q = rw (q, reject_sources) refl

lookup-noted :
    (t k : String) (o : Option String) (found : Dict String)
    → lookup t (noted k o found) ≡ or_later (if repairs t o then some k else none) (lookup t found)
lookup-noted t k none found = refl
lookup-noted t k (some x) found = elim (Bool-cases (str_eq x "")) [
  | inl blank ↦ ground (arith, blank)
  | inr named ↦ ground (arith, named, lookup-insert x t k found)
]

or_later_assoc : (a b c : Option String) → or_later (or_later a b) c ≡ or_later a (or_later b c)
or_later_assoc none b c = refl
or_later_assoc (some x) b c = refl

source_of-step :
    (t k : String) (e : Entry) (rest : Dict Entry)
    → source_of t ((k, e) ∷ rest)
      ≡ or_later (source_of t rest) (if repairs t e.task.on_reject then some k else none)
unfolding source_of
source_of-step t k e rest = refl

lookup-reject_sources :
    (t : String) (states : Dict Entry) (found : Dict String)
    → lookup t (reject_sources states found) ≡ or_later (source_of t states) (lookup t found)
lookup-reject_sources t [] found = unfold reject_sources source_of in refl
lookup-reject_sources t ((k, e) ∷ rest) found =
    let o = e.task.on_reject in
    ap (lookup t) (reject_sources-step k e rest found o refl)
    ∙ lookup-reject_sources t rest (noted k o found)
    ∙ ap (or_later (source_of t rest)) (lookup-noted t k o found)
    ∙ sym
        (or_later_assoc (source_of t rest) (if repairs t o then some k else none) (lookup t found))
    ∙ ap (λ x. or_later x (lookup t found)) (sym (source_of-step t k e rest))

or_later-none : (o : Option String) → or_later o none ≡ o
or_later-none none = refl
or_later-none (some k) = refl

pub sources_lem :
    (t : String) (states : Dict Entry) → lookup t (reject_sources states []) ≡ source_of t states
unfolding lookup
sources_lem t states = lookup-reject_sources t states [] ∙ or_later-none (source_of t states)

pub same_person_iff : (o : Option String) (s : String) → (same_person o s ≡ true) ↔ (o ≡ some s)
same_person_iff none s = ground arith
same_person_iff (some t) s = ground (arith, eq_iff t s)

module _ (states : Dict Entry) (actors : Dict String) (actor : String) where
  abbrev pub IsFresh : ℕ → Option String → Type 0
  IsFresh n o =
      (m : ℕ) (j : String) → m < n → back_from m states o ≡ some j → lookup j actors ≢ some actor

  pub reviewed_before-fresh :
      (n : ℕ) (o : Option String)
      → reviewed_before n (reject_sources states []) actors actor o ≡ false
      → IsFresh n o
  unfolding reviewed_before back_from
  reviewed_before-fresh zero o h m j lt at_j = absurd (omega (arith, lt))
  reviewed_before-fresh (suc n) none h m j lt at_j = absurd (ground (arith, at_j))
  reviewed_before-fresh (suc n) (some p) h zero j lt at_j =
      ground (arith, h, at_j, same_person_iff (lookup p actors) actor)
  reviewed_before-fresh (suc n) (some p) h (suc m) j lt at_j =
      reviewed_before-fresh n (source_of p states)
        (ap (reviewed_before n (reject_sources states []) actors actor) (sym (sources_lem p states))
          ∙ ground (arith, h))
        m j (omega (arith, lt)) at_j

  pub reviewed_before-found :
      (n : ℕ) (o : Option String)
      → reviewed_before n (reject_sources states []) actors actor o ≡ true
      → (m : ℕ) × (j : String) × (m < n)
        × (back_from m states o ≡ some j)
        × (lookup j actors ≡ some actor)
  unfolding reviewed_before back_from
  reviewed_before-found zero o h = absurd (ground (arith, h))
  reviewed_before-found (suc n) none h = absurd (ground (arith, h))
  reviewed_before-found (suc n) (some p) h =
      elim (Bool-cases (same_person (lookup p actors) actor)) [
        | inl here ↦ (zero, p, omega arith, refl, (same_person_iff (lookup p actors) actor).0 here)
        | inr other ↦
            let (m, j, lt, at_j, found) = reviewed_before-found n (source_of p states) (
              ap (reviewed_before n (reject_sources states []) actors actor)
                (sym (sources_lem p states))
              ∙ ground (arith, h, other)) in
            (suc m, j, omega (arith, lt), at_j, found)
      ]
