-- ===== src/Schedules/Counts.antt =====
-- The iterations that a table of states counts, under a write (src/mco/launcher.py, `tick`).
use bit_cadence.Prelude.{
  ℕ, ◌+◌, ◌≡◌, refl, sym, ap, ◌∙◌, String, Bool, Option, none, some, List, arith, if◌then◌else◌,
  lookup, insert, lookup-insert, str_eq, eq_iff, Dict, Bool-cases, inl, inr,
}
use bit_cadence.Schedules.Due.{Schedule, ScheduleState, iterations_of}
use bit_cadence.Schedules.Tick.{state_or_new, fired_state}

abbrev pub one_if : Bool → ℕ
one_if b = if b then 1 else 0

-- Writing a state counts for its schedule only.
pub iterations-insert :
    (k j : String) (st : ScheduleState) (d : Dict ScheduleState)
    → iterations_of (lookup k (insert j st d))
      ≡ (if str_eq j k then st.iterations else iterations_of (lookup k d))
iterations-insert k j st d = elim (Bool-cases (str_eq j k)) [
  | inl same ↦ rw (lookup-insert j k st d, same) refl
  | inr other ↦ rw (lookup-insert j k st d, other) refl
]

pub iterations-kept :
    (k j : String) (st old : ScheduleState) (d : Dict ScheduleState)
    → lookup j d ≡ some old
    → st.iterations ≡ old.iterations
    → iterations_of (lookup k (insert j st d)) ≡ iterations_of (lookup k d)
iterations-kept k j st old d p i = elim (Bool-cases (str_eq j k)) [
  | inl same ↦
      let q : j ≡ k = ground (arith, eq_iff j k) in
      iterations-insert k j st d
      ∙ rw same (i ∙ sym (ap iterations_of (ap (λ x. lookup x d) (sym q) ∙ p)))
  | inr other ↦ iterations-insert k j st d ∙ rw other refl
]

pub iterations-fired :
    (k j : String) (st old : ScheduleState) (d : Dict ScheduleState)
    → lookup j d ≡ some old
    → st.iterations ≡ old.iterations + 1
    → iterations_of (lookup k (insert j st d)) ≡ iterations_of (lookup k d) + one_if (str_eq j k)
iterations-fired k j st old d p i = elim (Bool-cases (str_eq j k)) [
  | inl same ↦
      let q : j ≡ k = ground (arith, eq_iff j k) in
      let v : iterations_of (lookup k d) ≡ old.iterations =
        ap iterations_of (ap (λ x. lookup x d) (sym q) ∙ p) in
      iterations-insert k j st d ∙ rw (same, v) i
  | inr other ↦ iterations-insert k j st d ∙ rw other (omega arith)
]

pub fired_state-iterations :
    (s : Schedule) (ids : List String) (now : ℕ) (st : ScheduleState)
    → (fired_state s ids now st).iterations ≡ st.iterations + 1
unfolding fired_state
fired_state-iterations s ids now st = refl

pub default-count :
    (k : String) (o : Option ScheduleState) → (state_or_new k o).iterations ≡ iterations_of o
default-count k none = refl
default-count k (some st) = refl

pub iterations-default :
    (k j : String) (d : Dict ScheduleState)
    → iterations_of (lookup k (insert j (state_or_new j (lookup j d)) d))
      ≡ iterations_of (lookup k d)
iterations-default k j d = elim (Bool-cases (str_eq j k)) [
  | inl same ↦
      let q : j ≡ k = ground (arith, eq_iff j k) in
      iterations-insert k j _ d ∙ rw (same, q) (default-count k (lookup k d))
  | inr other ↦ iterations-insert k j _ d ∙ rw other refl
]
