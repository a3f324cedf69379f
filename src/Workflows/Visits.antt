-- ===== src/Workflows/Visits.antt =====
-- What one call of `visit` does (src/mco/orchestrator/workflows.py, `topo_order`).
use bit_cadence.Prelude.{
  ℕ, suc, ◌≤◌, ◌<◌, ◌≡◌, refl, String, true, none, some, List, [], ◌∷◌, arith, contains,
  if◌then◌else◌, Dict, lookup, insert, lookup-insert, eq_iff, eq_refl, str_eq, Bool-cases, inl, inr,
  ap, subst, Option-cases, Raises, ok, err, ◌>>=◌, length, is_some, All,
}
use bit_cadence.Workflows.{Step, Mark, visiting, done, Trail, Fault, cycle, key_error, ids_of, each}
use bit_cadence.Workflows.Paths.{Edge, Reaches, Follows}

module _ (steps : Dict Step) where
  -- The order so far holds the steps marked as done, and keeps to the dependencies.
  pub record IsTrail (t : Trail) : Type 0 where
    pub listed : (k : String) → lookup k t.state ≡ some done → contains k (ids_of t.ordered) ≡ true
    pub only : (k : String) → contains k (ids_of t.ordered) ≡ true → lookup k t.state ≡ some done
    pub order : Follows [] t.ordered
    pub members : All (λ s. lookup s.id steps ≡ some s) t.ordered

  -- Marks stay, and no step is left as being visited.
  pub record Grows (t u : Trail) : Type 0 where
    pub keeps : (k : String) (m : Mark) → lookup k t.state ≡ some m → lookup k u.state ≡ some m
    pub opens : (k : String) → lookup k u.state ≡ some visiting → lookup k t.state ≡ some visiting

  -- A step depends on the id.
  abbrev pub Wanted : String → Type 0
  Wanted k = (j : String) × Edge steps j k

  -- A step that waits for itself, or a dependency that no step has as its id.
  abbrev pub Caused : Fault → Type 0
  Caused (cycle k) = Reaches steps k k
  Caused (key_error k) = (lookup k steps ≡ none) × Wanted k
  Caused _ = ⊥

  -- What the ids of a list have of visits: trails from trails, or a fault with its cause.
  abbrev pub Visited : Trail → List String → Raises Fault Trail → Type 0
  Visited t ids (ok u) =
      IsTrail u × Grows t u × ((k : String) → contains k ids ≡ true → lookup k u.state ≡ some done)
  Visited t ids (err fault) = Caused fault

-- the ids without a mark
pub unmarked : List String → Dict Mark → ℕ
unmarked [] marks = 0
unmarked (k ∷ ks) marks =
    if is_some (lookup k marks) then unmarked ks marks else suc (unmarked ks marks)

pub Grows-refl : (steps : Dict Step) (t : Trail) → Grows steps t t
Grows-refl steps t = record { keeps = λ k m h. h; opens = λ k h. h }

pub Grows-trans :
    (steps : Dict Step) (t u v : Trail) → Grows steps t u → Grows steps u v → Grows steps t v
Grows-trans steps t u v a b = record {
  keeps = λ k m h. b.keeps k m (a.keeps k m h);
  opens = λ k h. a.opens k (b.opens k h);
}

pub unmarked-all : (ks : List String) → unmarked ks [] ≡ length ks
unfolding unmarked lookup
unmarked-all [] = refl
unmarked-all (k ∷ ks) = ap suc (unmarked-all ks)

unmarked-keeps :
    (ks : List String) (a b : Dict Mark)
    → ((k : String) (m : Mark) → lookup k a ≡ some m → lookup k b ≡ some m)
    → unmarked ks b ≤ unmarked ks a
unfolding unmarked
unmarked-keeps [] a b f = omega arith
unmarked-keeps (k ∷ ks) a b f = elim (Option-cases (lookup k a)) [
  | inl gone ↦ ground (arith, unmarked-keeps ks a b f)
  | inr (m, there) ↦ ground (arith, unmarked-keeps ks a b f, f k m there)
]

insert-keeps :
    (id : String) (m : Mark) (a : Dict Mark)
    → lookup id a ≡ none
    → (k : String) (n : Mark) → lookup k a ≡ some n
    → lookup k (insert id m a) ≡ some n
insert-keeps id m a gone k n h = elim (Bool-cases (str_eq id k)) [
  | inl same ↦ absurd (ground (arith, eq_iff id k))
  | inr other ↦ rw lookup-insert (rw other h)
]

-- A mark on one of the ids that has none leaves fewer of them.
pub unmarked-insert :
    (ks : List String) (id : String) (m : Mark) (a : Dict Mark)
    → contains id ks ≡ true
    → lookup id a ≡ none
    → unmarked ks (insert id m a) < unmarked ks a
unfolding unmarked
unmarked-insert [] id m a c gone = absurd (ground arith)
unmarked-insert (k ∷ ks) id m a c gone = elim (Bool-cases (str_eq k id)) [
  | inl same ↦ ground (
    arith,
    eq_iff k id,
    eq_iff id k,
    lookup-insert id k m a,
    unmarked-keeps ks a (insert id m a) (insert-keeps id m a gone),
  )
  | inr other ↦ ground (
    arith,
    eq_iff k id,
    eq_iff id k,
    lookup-insert id k m a,
    unmarked-insert ks id m a (rw other at c) gone,
  )
]

module _ (steps : Dict Step) (ks : List String) where
  extend :
      (t u : Trail) (x : String) (xs : List String) (r : Raises Fault Trail)
      → Grows steps t u
      → lookup x u.state ≡ some done
      → Visited steps u xs r
      → Visited steps t (x ∷ xs) r
  extend t u x xs (ok w) g d (i, h, f) = (
    i,
    Grows-trans steps t u w g h,
    λ k c. elim (Bool-cases (str_eq x k)) [
      | inl same ↦
          subst (λ y. lookup y w.state ≡ some done) (ground (arith, eq_iff x k)) (h.keeps x done d)
      | inr other ↦ f k (rw other at c)
    ],
  )
  extend t u x xs (err fault) g d v = v

  each-first :
      (v : String → Trail → Raises Fault Trail) (t : Trail) (x : String) (xs : List String)
      (r : Raises Fault Trail)
      → Visited steps t (x ∷ []) r
      → ((u : Trail) → IsTrail steps u → Grows steps t u → Visited steps u xs (each v xs u))
      → Visited steps t (x ∷ xs) (r >>= each v xs)
  each-first v t x xs (ok u) (i, g, f) rest =
      extend t u x xs (each v xs u) g (f x (ground (arith, eq_refl x))) (rest u i g)
  each-first v t x xs (err fault) h rest = h

  pub each-Visited :
      (n : ℕ) (v : String → Trail → Raises Fault Trail) (xs : List String) (t : Trail)
      → ((d : String) (u : Trail)
          → contains d xs ≡ true
          → IsTrail steps u
          → unmarked ks u.state < n
          → ((k : String) → lookup k u.state ≡ some visiting → Reaches steps k d)
          → Visited steps u (d ∷ []) (v d u))
      → IsTrail steps t
      → unmarked ks t.state < n
      → ((k d : String)
          → lookup k t.state ≡ some visiting
          → contains d xs ≡ true
          → Reaches steps k d)
      → Visited steps t xs (each v xs t)
  unfolding each
  each-Visited n v [] t call i fuel stack = (i, Grows-refl steps t, λ k c. absurd (ground arith))
  each-Visited n v (x ∷ xs) t call i fuel stack =
      each-first v t x xs (v x t)
        (call x t (ground (arith, eq_refl x)) i fuel
          (λ k h. stack k x h (ground (arith, eq_refl x))))
        (λ u j g.
          each-Visited n v xs u (λ d w c. call d w (ground arith)) j
            (omega (arith, unmarked-keeps ks t.state u.state g.keeps, fuel))
            (λ k d h c. stack k d (g.opens k h) (ground arith)))
