-- ===== src/Workflows/Descent.antt =====
-- One visit of a step, with the visits in it (src/mco/orchestrator/workflows.py, `topo_order`).
use bit_cadence.Prelude.{
  ℕ, zero, suc, ◌<◌, ◌≡◌, refl, String, Bool, true, false, none, some, List, [], ◌∷◌, ◌++◌, arith,
  contains, if◌then◌else◌, Dict, lookup, insert, lookup-insert, eq_iff, eq_refl, str_eq, Bool-cases,
  inl, inr, subst, sym, Option-cases, Raises, ok, err, ◌>>=◌, All,
}
use bit_cadence.Workflows.{
  Step, visiting, done, Trail, Fault, ids_of, marked, finished, each, visit,
}
use bit_cadence.Workflows.Paths.{Edge, Reaches, one, next, Follows-append, contains-ids-append}
use bit_cadence.Workflows.Visits.{
  IsTrail, Grows, Visited, Wanted, unmarked, unmarked-insert, each-Visited, Grows-refl,
}

All-append-one :
    (P : Step → Type 0) (xs : List Step) (s : Step) → All P xs → P s → All P (xs ++ (s ∷ []))
All-append-one P [] s a p = (p, tt)
All-append-one P (x ∷ xs) s (q, a) p = (q, All-append-one P xs s a p)

or-true : (b : Bool) → (if b then true else true) ≡ true
or-true true = refl
or-true false = refl

module _ (steps : Dict Step) where
  marked-IsTrail :
      (id : String) (t : Trail)
      → lookup id t.state ≡ none
      → IsTrail steps t
      → IsTrail steps (marked id t)
  unfolding marked
  marked-IsTrail id t gone i = record {
    listed = λ k h. i.listed k (ground (arith, lookup-insert id k visiting t.state));
    only = λ k h. elim (Bool-cases (str_eq id k)) [
      | inl same ↦ absurd (ground (arith, eq_iff id k, i.only k h))
      | inr other ↦ ground (arith, lookup-insert id k visiting t.state, i.only k h)
    ];
    order = i.order;
    members = i.members;
  }

  not_listed :
      (id : String) (u : Trail)
      → lookup id u.state ≡ some visiting
      → IsTrail steps u
      → contains id (ids_of u.ordered) ≡ false
  not_listed id u h i = elim (Bool-cases (contains id (ids_of u.ordered))) [
    | inl there ↦ absurd (ground (arith, i.only id there))
    | inr gone ↦ gone
  ]

  -- The step is put behind its dependencies.
  finished-IsTrail :
      (s : Step) (u : Trail)
      → lookup s.id steps ≡ some s
      → lookup s.id u.state ≡ some visiting
      → ((d : String) → contains d s.depends_on ≡ true → lookup d u.state ≡ some done)
      → IsTrail steps u
      → IsTrail steps (finished s s.id u)
  unfolding finished
  finished-IsTrail s u here open_ deps i = record {
    listed = λ k h. rw contains-ids-append (elim (Bool-cases (str_eq s.id k)) [
      | inl same ↦ rw same (or-true (contains k (ids_of u.ordered)))
      | inr other ↦ ground (arith, i.listed k (ground (arith, lookup-insert s.id k done u.state)))
    ]);
    only = λ k h. elim (Bool-cases (str_eq s.id k)) [
      | inl same ↦ ground (arith, lookup-insert s.id k done u.state)
      | inr other ↦ ground (
        arith,
        lookup-insert s.id k done u.state,
        i.only k (ground (arith, contains-ids-append k u.ordered s)),
      )
    ];
    order =
        Follows-append [] u.ordered s i.order refl (not_listed s.id u open_ i)
          (λ d c. inr (i.listed d (deps d c)));
    members = All-append-one (λ x. lookup x.id steps ≡ some x) u.ordered s i.members here;
  }

  finished-Grows :
      (s : Step) (t u : Trail)
      → lookup s.id t.state ≡ none
      → Grows steps (marked s.id t) u
      → Grows steps t (finished s s.id u)
  unfolding marked finished
  finished-Grows s t u gone g = record {
    keeps = λ k m h. elim (Bool-cases (str_eq s.id k)) [
      | inl same ↦ absurd (ground (arith, eq_iff s.id k))
      | inr other ↦ rw lookup-insert (rw other (g.keeps k m (rw lookup-insert (rw other h))))
    ];
    opens = λ k h. elim (Bool-cases (str_eq s.id k)) [
      | inl same ↦ absurd (ground (arith, lookup-insert s.id k done u.state))
      | inr other ↦ ground (
        arith,
        lookup-insert s.id k visiting t.state,
        g.opens k (ground (arith, lookup-insert s.id k done u.state)),
      )
    ];
  }

  finish-Visited :
      (s : Step) (t : Trail) (r : Raises Fault Trail)
      → lookup s.id steps ≡ some s
      → lookup s.id t.state ≡ none
      → Visited steps (marked s.id t) s.depends_on r
      → Visited steps t (s.id ∷ []) (r >>= λ u. ok (finished s s.id u))
  unfolding marked
  finish-Visited s t (err fault) here gone v = v
  finish-Visited s t (ok u) here gone (i, g, f) = (
    finished-IsTrail s u here
        (g.keeps s.id visiting
          (ground (arith, lookup-insert s.id s.id visiting t.state, eq_refl s.id)))
        f i,
    finished-Grows s t u gone g,
    λ k c. unfold finished in ground (arith, lookup-insert s.id k done u.state, eq_iff s.id k),
  )

  visit-found :
      (n : ℕ) (s : Step) (t : Trail)
      → lookup s.id t.state ≡ none
      → lookup s.id steps ≡ some s
      → Visited steps
          (marked s.id t)
          s.depends_on
          (each (visit n steps) s.depends_on (marked s.id t))
      → Visited steps t (s.id ∷ []) (visit (suc n) steps s.id t)
  unfolding visit
  visit-found n s t gone here v =
      rw (gone, here, visit)
        (finish-Visited s t (each (visit n steps) s.depends_on (marked s.id t)) here gone v)

  visit-done :
      (n : ℕ) (id : String) (t : Trail)
      → IsTrail steps t
      → lookup id t.state ≡ some done
      → Visited steps t (id ∷ []) (visit (suc n) steps id t)
  unfolding visit
  visit-done n id t i h =
      rw (h, visit)
        (
          i,
          Grows-refl steps t,
          λ k c. subst (λ x. lookup x t.state ≡ some done) (ground (arith, eq_iff id k)) h,
        )

  -- The steps being visited are above the step, and it is above what it depends on.
  stack-deps :
      (s : Step) (t : Trail)
      → lookup s.id steps ≡ some s
      → ((k : String) → lookup k t.state ≡ some visiting → Reaches steps k s.id)
      → (k d : String) → lookup k (marked s.id t).state ≡ some visiting
      → contains d s.depends_on ≡ true
      → Reaches steps k d
  unfolding marked
  stack-deps s t here stack k d h c =
      let edge : Edge steps s.id d = record { step = s; found = here; link = c } in
      elim (Bool-cases (str_eq s.id k)) [
        | inl same ↦ subst (λ x. Reaches steps x d) (ground (arith, eq_iff s.id k)) (one edge)
        | inr other ↦ next (stack k (ground (arith, lookup-insert s.id k visiting t.state))) edge
      ]

  -- A visit with fuel for all the steps that have no mark yet.
  pub visit-Visited :
      (ks : List String) (n : ℕ) (id : String) (t : Trail)
      → ((k : String) (s : Step) → lookup k steps ≡ some s → (contains k ks ≡ true) × (s.id ≡ k))
      → IsTrail steps t
      → unmarked ks t.state < n
      → ((k : String) → lookup k t.state ≡ some visiting → Reaches steps k id)
      → (lookup id steps ≡ none → Wanted steps id)
      → Visited steps t (id ∷ []) (visit n steps id t)
  unfolding visit marked
  visit-Visited ks zero id t known i fuel stack asked = absurd (omega (arith, fuel))
  visit-Visited ks (suc n) id t known i fuel stack asked = elim (Option-cases (lookup id t.state)) [
    | inr (done, h) ↦ visit-done n id t i h
    | inr (visiting, h) ↦ rw (h, visit) (stack id h)
    | inl gone ↦ elim (Option-cases (lookup id steps)) [
      | inl unknown ↦ rw (gone, unknown, visit) (unknown, asked unknown)
      | inr (s, here) ↦
          let (named, same) = known id s here in
          let here' : lookup s.id steps ≡ some s =
            subst (λ x. lookup x steps ≡ some s) (sym same) here in
          let gone' : lookup s.id t.state ≡ none = rw same gone in
          let stack' : (k : String) → lookup k t.state ≡ some visiting → Reaches steps k s.id =
            λ k h. subst (Reaches steps k) (sym same) (stack k h) in
          let fewer : unmarked ks (insert s.id visiting t.state) < unmarked ks t.state =
            unmarked-insert ks s.id visiting t.state (rw same named) gone' in
          subst (λ x. Visited steps t (x ∷ []) (visit (suc n) steps x t)) same
            (visit-found n s t gone' here' (
              each-Visited steps ks n (visit n steps) s.depends_on (marked s.id t)
                (λ d u c j left above.
                  visit-Visited ks n d u known j left above
                    (λ h. (s.id, record { step = s; found = here'; link = c })))
                (marked-IsTrail s.id t gone' i) (omega (arith, fewer, fuel))
                (stack-deps s t here' stack')))
    ]
  ]
