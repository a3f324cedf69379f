-- ===== src/Workflows/Order.antt =====
-- The order of a workflow's steps (src/mco/orchestrator/workflows.py, `topo_order`).
use bit_cadence.Prelude.{
  suc, ◌≡◌, refl, String, true, some, List, [], ◌∷◌, arith, contains, Dict, lookup, insert, ◌∙◌,
  some-injective, lookup-insert, eq_iff, str_eq, Bool-cases, inl, inr, ap, subst, sym, ◌⊎◌, Raises,
  ok, err, ◌>>=◌, length, is_some, All,
}
use bit_cadence.Workflows.{
  Step, done, Trail, Fault, ids_of, topo_order, by_id, index_from, no_marks,
}
use bit_cadence.Workflows.Paths.{Follows}
use bit_cadence.Workflows.Visits.{IsTrail, Visited, Caused, each-Visited}
use bit_cadence.Workflows.Visits.{unmarked-all}
use bit_cadence.Workflows.Descent.{visit-Visited}

no_marks-IsTrail : (steps : Dict Step) → IsTrail steps no_marks
unfolding lookup
no_marks-IsTrail steps = record {
  listed = λ k h. absurd (ground arith);
  only = λ k h. absurd (ground arith);
  order = tt;
  members = tt;
}

row_id :
    (x s : Step) (k : String) (d : Dict Step)
    → str_eq x.id k ≡ true
    → lookup k (insert x.id x d) ≡ some s
    → s.id ≡ k
row_id x s k d same there =
    let here : lookup k (insert x.id x d) ≡ some x = rw lookup-insert (rw same refl) in
    let equal : x ≡ s = some-injective x s (sym here ∙ there) in
    subst (λ q. q.id ≡ k) equal (ground (arith, eq_iff x.id k))

-- Every row of the index is a step of the list, or a row that was there, under its id.
index-known :
    (ss : List Step) (d : Dict Step) (k : String) (s : Step)
    → lookup k (index_from d ss) ≡ some s
    → (contains k (ids_of ss) ≡ true) × (s.id ≡ k) ⊎ (lookup k d ≡ some s)
unfolding index_from
index-known [] d k s h = inr h
index-known (x ∷ ss) d k s h = elim (index-known ss (insert x.id x d) k s h) [
  | inl (c, e) ↦ inl (ground arith, e)
  | inr there ↦ elim (Bool-cases (str_eq x.id k)) [
    | inl same ↦ inl (ground arith, row_id x s k d same there)
    | inr other ↦ inr (ground (arith, lookup-insert x.id k x d))
  ]
]

-- What all the steps of the list have, those in the index have.
pub index-All :
    (P : Step → Type 0) (ss : List Step) (d : Dict Step) (k : String) (s : Step)
    → All P ss
    → lookup k (index_from d ss) ≡ some s
    → P s ⊎ (lookup k d ≡ some s)
unfolding index_from
index-All P [] d k s a h = inr h
index-All P (x ∷ ss) d k s (p, a) h = elim (index-All P ss (insert x.id x d) k s a h) [
  | inl q ↦ inl q
  | inr there ↦ elim (Bool-cases (str_eq x.id k)) [
    | inl same ↦
        inl (subst P (some-injective x s (sym (rw lookup-insert (rw same refl)) ∙ there)) p)
    | inr other ↦ inr (ground (arith, lookup-insert x.id k x d))
  ]
]

index-keeps :
    (ss : List Step) (d : Dict Step) (k : String)
    → is_some (lookup k d) ≡ true
    → is_some (lookup k (index_from d ss)) ≡ true
unfolding index_from
index-keeps [] d k h = h
index-keeps (x ∷ ss) d k h =
    index-keeps ss (insert x.id x d) k (ground (arith, lookup-insert x.id k x d))

pub index-holds :
    (ss : List Step) (d : Dict Step) (k : String)
    → contains k (ids_of ss) ≡ true
    → is_some (lookup k (index_from d ss)) ≡ true
unfolding index_from
index-holds [] d k h = absurd (ground arith)
index-holds (x ∷ ss) d k h = elim (Bool-cases (str_eq x.id k)) [
  | inl same ↦ index-keeps ss (insert x.id x d) k (ground (arith, lookup-insert x.id k x d))
  | inr other ↦ index-holds ss (insert x.id x d) k (rw other at h)
]

length-ids : (ss : List Step) → length (ids_of ss) ≡ length ss
length-ids [] = refl
length-ids (s ∷ ss) = ap suc (length-ids ss)

-- The steps in an order: each id of the list once and no other, each step after all that it depends on.
pub record IsOrder (steps order : List Step) : Type 0 where
  pub follows : Follows [] order
  pub members : All (λ s. lookup s.id (by_id steps) ≡ some s) order
  pub same_ids : (k : String) → contains k (ids_of order) ≡ contains k (ids_of steps)

-- The order, a step that waits for itself, or a dependency without a step.
abbrev pub Ordered : List Step → Raises Fault (List Step) → Type 0
Ordered steps (ok order) = IsOrder steps order
Ordered steps (err fault) = Caused (by_id steps) fault

member-known :
    (d : Dict Step) (xs : List Step) (k : String)
    → All (λ s. lookup s.id d ≡ some s) xs
    → contains k (ids_of xs) ≡ true
    → (s : Step) × (lookup k d ≡ some s)
member-known d [] k a c = absurd (ground arith)
member-known d (x ∷ xs) k (here, a) c = elim (Bool-cases (str_eq x.id k)) [
  | inl same ↦ (x, subst (λ y. lookup y d ≡ some x) (ground (arith, eq_iff x.id k)) here)
  | inr other ↦ member-known d xs k a (rw other at c)
]

by_id-known :
    (steps : List Step) (k : String) (s : Step)
    → lookup k (by_id steps) ≡ some s
    → (contains k (ids_of steps) ≡ true) × (s.id ≡ k)
unfolding lookup
by_id-known steps k s h = elim (index-known steps [] k s h) [
  | inl known ↦ known
  | inr there ↦ absurd (ground arith)
]

order-ids :
    (steps : List Step) (t : Trail)
    → IsTrail (by_id steps) t
    → ((k : String) → contains k (ids_of steps) ≡ true → lookup k t.state ≡ some done)
    → (k : String) → contains k (ids_of t.ordered) ≡ contains k (ids_of steps)
order-ids steps t i f k = elim (Bool-cases (contains k (ids_of t.ordered))) [
  | inl there ↦
      let (s, h) = member-known (by_id steps) t.ordered k i.members there in
      there ∙ sym (by_id-known steps k s h).0
  | inr gone ↦ elim (Bool-cases (contains k (ids_of steps))) [
    | inl known ↦ absurd (ground (arith, i.listed k (f k known)))
    | inr other ↦ gone ∙ sym other
  ]
]

ordered-result :
    (steps : List Step) (r : Raises Fault Trail)
    → Visited (by_id steps) no_marks (ids_of steps) r
    → Ordered steps (r >>= λ t. ok t.ordered)
ordered-result steps (err fault) v = v
ordered-result steps (ok t) (i, g, f) = record {
  follows = i.order;
  members = i.members;
  same_ids = order-ids steps t i f;
}

-- Whatever the steps are, topo_order ends. It returns the steps in an order, where each id stands once
-- and each step after all that it depends on; or it raises for a step that depends on itself through
-- others, or for a dependency of a step that no step has as its id.
pub topo_order-Ordered : (steps : List Step) → Ordered steps (topo_order steps)
unfolding topo_order lookup
topo_order-Ordered steps = ordered-result steps _ (
    each-Visited (by_id steps) (ids_of steps) (suc (length steps)) _ (ids_of steps) no_marks
      (λ d u c j left above.
        visit-Visited (by_id steps) (ids_of steps) _ d u (by_id-known steps) j left above
          (λ h. absurd (ground (arith, index-holds steps [] d c))))
      (no_marks-IsTrail (by_id steps))
      (omega (arith, unmarked-all (ids_of steps), length-ids steps))
      (λ k d h c. absurd (ground arith)))
