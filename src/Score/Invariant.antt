-- ===== src/Score/Invariant.antt =====
-- What holds of a run of a score between two of its steps.
use bit_cadence.Prelude.{
  ℕ, ◌+◌, ◌≤◌, ◌<◌, ◌≡◌, refl, ap, subst, String, Bool, true, false, ◌||◌, some, List, [], ◌∷◌,
  arith, if◌then◌else◌, is_some, lookup, insert, lookup-insert, Dict, str_eq, eq_iff, contains,
  Option-cases, Bool-cases, inl, inr,
}
use bit_cadence.Score.Plan.{within}
use bit_cadence.Score.Run.{
  Entry, Run, TaskStatus, is_pending, is_active, is_accepted, token_of, accepted_entry,
  dependencies_met, count_active,
}

-- no resource in common
abbrev pub Apart : List String → List String → Type 0
Apart xs ys = (x : String) → contains x xs ≡ true → contains x ys ≡ false

-- What an entry shows by itself.
pub record IsOwn (r : Run) (k : String) (e : Entry) : Type 0 where
  pub tries : e.attempt ≤ e.task.max_attempts
  pub more_tries : is_pending e.status ≡ true → e.attempt < e.task.max_attempts
  pub claimed : is_active e.status ≡ true → e.token ≡ some (token_of r k e.attempt)
  pub written : is_active e.status ≡ true → is_some e.author ≡ true
  pub timed : is_active e.status ≡ true → is_some e.deadline ≡ true

abbrev pub has_begun : TaskStatus → Bool
has_begun s = is_active s || is_accepted s

-- What has begun has its dependencies accepted and its capabilities granted; what is in work at one time
-- shares no resource and is no more than the limit; and what is reserved is within the budget.
pub record IsSound (r : Run) : Type 0 where
  pub budget : r.reserved ≤ r.budget
  pub parallel : count_active r.states ≤ r.max_parallel
  pub own : (k : String) (e : Entry) → lookup k r.states ≡ some e → IsOwn r k e
  pub unblocked :
      (k : String) (e : Entry)
      → lookup k r.states ≡ some e
      → has_begun e.status ≡ true
      → dependencies_met e.task.depends_on r.states ≡ true
  pub granted :
      (k : String) (e : Entry)
      → lookup k r.states ≡ some e
      → has_begun e.status ≡ true
      → within e.task.capabilities r.grants ≡ true
  pub locks :
      (k j : String) (e f : Entry)
      → str_eq k j ≡ false
      → lookup k r.states ≡ some e
      → lookup j r.states ≡ some f
      → is_active e.status ≡ true
      → is_active f.status ≡ true
      → Apart e.task.resources f.task.resources

-- The later entry is of the same task, is in work only if the earlier was, and is accepted if the
-- earlier was, or was in work.
pub record Settles (e f : Entry) : Type 0 where
  pub same : f.task ≡ e.task
  pub active : is_active f.status ≡ true → is_active e.status ≡ true
  pub stays : is_accepted e.status ≡ true → is_accepted f.status ≡ true
  pub begun : is_accepted f.status ≡ true → has_begun e.status ≡ true

pub Settles-refl : (e : Entry) → Settles e e
Settles-refl e = record { same = refl; active = λ h. h; stays = λ h. h; begun = λ h. ground arith }

-- Every entry has settled.
pub record AllSettle (d d' : Dict Entry) : Type 0 where
  pub fore :
      (k : String) (e : Entry)
      → lookup k d ≡ some e
      → (f : Entry) × (lookup k d' ≡ some f) × Settles e f
  pub back :
      (k : String) (f : Entry)
      → lookup k d' ≡ some f
      → (e : Entry) × (lookup k d ≡ some e) × Settles e f

accepted-AllSettle :
    (d d' : Dict Entry) (k : String)
    → AllSettle d d'
    → accepted_entry (lookup k d) ≡ true
    → accepted_entry (lookup k d') ≡ true
accepted-AllSettle d d' k s h = elim (Option-cases (lookup k d)) [
  | inl e ↦ absurd (ground arith)
  | inr (e, p) ↦ let (f, q, t) = s.fore k e p in rw q (t.stays (ground arith))
]

pub dependencies_met-AllSettle :
    (deps : List String) (d d' : Dict Entry)
    → AllSettle d d'
    → dependencies_met deps d ≡ true
    → dependencies_met deps d' ≡ true
unfolding dependencies_met
dependencies_met-AllSettle [] d d' s h = refl
dependencies_met-AllSettle (x ∷ deps) d d' s h = elim (Bool-cases (accepted_entry (lookup x d))) [
  | inl a ↦
      rw (accepted-AllSettle d d' x s a)
        (dependencies_met-AllSettle deps d d' s (rw (a, dependencies_met) at h))
  | inr n ↦ absurd (ground arith)
]

begun-Settles : (e f : Entry) → Settles e f → has_begun f.status ≡ true → has_begun e.status ≡ true
begun-Settles e f s h = ground (arith, s.active, s.begun)

-- A step that only settles entries keeps the run sound.
pub AllSettle-IsSound :
    (r r' : Run)
    → r'.budget ≡ r.budget
    → r'.reserved ≡ r.reserved
    → r'.max_parallel ≡ r.max_parallel
    → r'.grants ≡ r.grants
    → AllSettle r.states r'.states
    → count_active r'.states ≤ count_active r.states
    → ((k : String) (f : Entry) → lookup k r'.states ≡ some f → IsOwn r' k f)
    → IsSound r
    → IsSound r'
AllSettle-IsSound r r' b v p g s n own i = record {
  budget = omega (arith, i.budget);
  parallel = omega (arith, i.parallel);
  own = own;
  unblocked = λ k f q h.
      let (e, q', t) = s.back k f q in
      rw (ap (λ x. x.depends_on) t.same) (
        dependencies_met-AllSettle e.task.depends_on r.states r'.states s
          (i.unblocked k e q' (begun-Settles e f t h)));
  granted = λ k f q h.
      let (e, q', t) = s.back k f q in
      rw (ap (λ x. x.capabilities) t.same, g) (i.granted k e q' (begun-Settles e f t h));
  locks = λ k j e f ne q q' h h'.
      let (a, x, t) = s.back k e q in
      let (c, y, u) = s.back j f q' in
      rw (ap (λ z. z.resources) t.same, ap (λ z. z.resources) u.same)
        (i.locks k j a c ne x y (t.active h) (u.active h'));
}

-- One entry settles.
pub AllSettle-insert :
    (k : String) (e f : Entry) (d : Dict Entry)
    → lookup k d ≡ some e
    → Settles e f
    → AllSettle d (insert k f d)
AllSettle-insert k e f d p s = record {
  fore = λ j g q. elim (Bool-cases (str_eq k j)) [
    | inl same ↦ (
      f,
      ground (arith, lookup-insert k j f d),
      subst (λ x. Settles x f) (ground (arith, eq_iff k j)) s,
    )
    | inr other ↦ (g, ground (arith, lookup-insert k j f d), Settles-refl g)
  ];
  back = λ j g q. elim (Bool-cases (str_eq k j)) [
    | inl same ↦
        (e, ground (arith, eq_iff k j), subst (Settles e) (ground (arith, lookup-insert k j f d)) s)
    | inr other ↦ (g, ground (arith, lookup-insert k j f d), Settles-refl g)
  ];
}

abbrev pub weight : Entry → ℕ
weight e = if is_active e.status then 1 else 0

pub count_active-insert :
    (k : String) (e f : Entry) (d : Dict Entry)
    → lookup k d ≡ some e
    → count_active (insert k f d) + weight e ≡ count_active d + weight f
unfolding lookup insert count_active
count_active-insert k e f [] p = absurd (ground arith)
count_active-insert k e f ((j, g) ∷ d) p = elim (Bool-cases (str_eq j k)) [
  | inl same ↦ let q : g ≡ e = ground arith in rw same (ground arith)
  | inr other ↦ rw other (ground (arith, count_active-insert k e f d (rw (other, lookup) at p)))
]

pub IsOwn-insert :
    (r r' : Run) (k : String) (f : Entry)
    → r'.run_id ≡ r.run_id
    → r'.fingerprint ≡ r.fingerprint
    → r'.states ≡ insert k f r.states
    → IsOwn r' k f
    → ((j : String) (e : Entry) → lookup j r.states ≡ some e → IsOwn r j e)
    → (j : String) (e : Entry) → lookup j r'.states ≡ some e
    → IsOwn r' j e
IsOwn-insert r r' k f id d s o own j e q = elim (Bool-cases (str_eq k j)) [
  | inl same ↦
      let a : e ≡ f = ground (arith, lookup-insert k j f r.states) in
      let b : j ≡ k = ground (arith, eq_iff k j) in rw (a, b) o
  | inr other ↦
      let v = own j e (ground (arith, lookup-insert k j f r.states)) in
      record {
        tries = v.tries;
        more_tries = v.more_tries;
        claimed = λ h. rw (id, d) (v.claimed h);
        written = v.written;
        timed = v.timed;
      }
]
