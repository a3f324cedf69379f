-- ===== src/Cio/Approval.antt =====
-- What it takes for a proposal to be approved (src/mco/orchestrator/cio_policy.py, `evaluate`).
use bit_cadence.Prelude.{
  ℕ, ◌≡◌, refl, sym, ap, subst, ◌∙◌, String, Bool, true, false, ◌&&◌, not, Option, none, some, List,
  [], ◌∷◌, ◌++◌, map, arith, ltb, ◌==◌, str_eq, eq_iff, codes_of, all_by, contains, filter_by,
  is_blank, strip, same_folded, Bool-cases, Option-cases, inl, inr,
}
use bit_cadence.Cio.{
  Verdict, approve, Cause, escalation, Proposal, prohibited_categories, escalate_categories, cap_of,
  is_project, same_list, normal_codes, reaches, over_spend_cap, matching, is_none, spend_reasons,
  verdict_of, judge_content, evaluate,
}

abbrev pub is_approve : Verdict → Bool
is_approve approve = true
is_approve _ = false

-- nothing is spent, or less than the cap of a project that has one
abbrev pub affordable : ℕ → Option ℕ → Bool
affordable spend none = spend == 0
affordable spend (some cap) = ltb spend cap

abbrev pub no_cause : List Cause → Bool
no_cause [] = true
no_cause (c ∷ cs) = false

same_list_trans : (xs ys zs : List ℕ) → same_list xs ys ≡ true → same_list xs zs ≡ same_list ys zs
same_list_trans [] [] zs h = refl
same_list_trans [] (y ∷ ys) zs h = absurd (ground arith)
same_list_trans (x ∷ xs) [] zs h = absurd (ground arith)
same_list_trans (x ∷ xs) (y ∷ ys) [] h = refl
same_list_trans (x ∷ xs) (y ∷ ys) (z ∷ zs) h =
    let rest = same_list_trans xs ys zs (ground arith) in
    let same : x ≡ y = ground arith in rw (same, rest) refl

-- A project has one key.
other_key :
    (key other p : String)
    → is_project key p ≡ true
    → same_list (codes_of key) (codes_of other) ≡ false
    → is_project other p ≡ false
unfolding is_project
other_key key other p h d =
    same_list_trans (normal_codes (codes_of (strip p))) (codes_of key) (codes_of other) h ∙ d

lab-cap : (p : String) → is_project "sim_lab" p ≡ true → cap_of p ≡ some 2500
unfolding cap_of
lab-cap p h =
    rw (other_key "sim_lab" "via" p h refl, other_key "sim_lab" "mymeals" p h refl, h) refl

below-cap :
    (spend cap : ℕ) (lab : Bool)
    → (lab ≡ true → cap ≡ 2500)
    → not (reaches spend (some cap) lab) ≡ ltb spend cap
below-cap spend cap true f = let q = f refl in ground arith
below-cap spend cap false f = ground arith

some-number : {x : Option ℕ} {a b : ℕ} → x ≡ some a → x ≡ some b → b ≡ a
some-number {a = a} p q = ap (λ x. elim x [ some y ↦ y | none ↦ a ]) (sym q ∙ p)

spend-affordable :
    (p : Proposal) → no_cause (spend_reasons p) ≡ affordable p.spend_cents (cap_of p.project)
unfolding spend_reasons over_spend_cap
spend-affordable p = elim (Option-cases (cap_of p.project)) [
  | inl q ↦ rw q (ground arith)
  | inr (cap, q) ↦
      let fit =
        below-cap p.spend_cents cap (is_project "sim_lab" p.project)
          (λ h. some-number (lab-cap p.project h) q) in
      rw q (ground (arith, fit))
]

filter-contains :
    (f : String → Bool) (x : String) (ys : List String)
    → is_none (filter_by f ys) ≡ true
    → contains x ys ≡ true
    → f x ≡ false
filter-contains f x [] n h = absurd (ground arith)
filter-contains f x (y ∷ ys) n h = elim (Bool-cases (f y)) [
  | inl hit ↦ absurd (ground (arith, rw hit at n))
  | inr miss ↦ elim (Bool-cases (str_eq y x)) [
    | inl same ↦ let q : y ≡ x = ground (arith, eq_iff y x) in subst (λ z. f z ≡ false) q miss
    | inr other ↦ filter-contains f x ys (rw miss at n) (rw other at h)
  ]
]

filter-within :
    (f : String → Bool) (xs ys : List String)
    → all_by (λ x. contains x ys) xs ≡ true
    → is_none (filter_by f ys) ≡ true
    → is_none (filter_by f xs) ≡ true
filter-within f [] ys w n = refl
filter-within f (x ∷ xs) ys w n = elim (Bool-cases (contains x ys)) [
  | inr out ↦ absurd (ground (arith, rw out at w))
  | inl there ↦ rw (filter-contains f x ys n there) (filter-within f xs ys (rw there at w) n)
]

-- What is prohibited is to be escalated at the least.
matching-prohibited :
    (cs : List String)
    → is_none (matching escalate_categories cs) ≡ true
    → is_none (matching prohibited_categories cs) ≡ true
matching-prohibited cs =
    filter-within (λ c. contains c cs) prohibited_categories escalate_categories refl

verdict-no_cause :
    (xs : List String) (cs : List Cause)
    → is_approve (verdict_of (map escalation xs ++ cs)).verdict ≡ (is_none xs && no_cause cs)
verdict-no_cause [] [] = refl
verdict-no_cause [] (c ∷ cs) = refl
verdict-no_cause (x ∷ xs) cs = refl

some-odd :
    (cs : List String)
    → is_none (matching prohibited_categories cs) ≡ false
    → is_none (matching escalate_categories cs) ≡ false
some-odd cs dirty = elim (Bool-cases (is_none (matching escalate_categories cs))) [
  | inl clean ↦
      let q : true ≡ false = sym (matching-prohibited cs clean) ∙ dirty in absurd (ground arith)
  | inr odd ↦ odd
]

judge-approves :
    (p : Proposal)
    → is_approve (judge_content p).verdict ≡ (
        is_none (matching escalate_categories p.categories)
        && affordable p.spend_cents (cap_of p.project))
unfolding judge_content
judge-approves p =
    let bad = matching prohibited_categories p.categories in
    let odd = matching escalate_categories p.categories in
    elim (Bool-cases (is_none bad)) [
      | inl clean ↦
          rw (clean, judge_content)
            (verdict-no_cause odd (spend_reasons p)
              ∙ ap (λ x. is_none odd && x) (spend-affordable p))
      | inr dirty ↦
          let q : is_none odd ≡ false = some-odd p.categories dirty in
          rw (dirty, judge_content, q) refl
    ]

-- A proposal is approved exactly where the proposer and the decider are both named and are not the same, none of its
-- categories is one to escalate or prohibited, and it spends nothing, or less than the cap of a
-- project that has one.
pub evaluate-approves :
    (p : Proposal) (decider : String)
    → is_approve (evaluate p decider).verdict ≡ (
        not (is_blank p.proposed_by)
        && not (is_blank decider)
        && not (same_folded (strip p.proposed_by) (strip decider))
        && is_none (matching escalate_categories p.categories)
        && affordable p.spend_cents (cap_of p.project))
unfolding evaluate
evaluate-approves p decider = elim (Bool-cases (is_blank p.proposed_by)) [
  | inl nobody ↦ rw nobody refl
  | inr named ↦ elim (Bool-cases (is_blank decider)) [
    | inl nobody ↦ rw (named, nobody) refl
    | inr decided ↦ elim (Bool-cases (same_folded (strip p.proposed_by) (strip decider))) [
      | inl same ↦ rw (named, decided, same) refl
      | inr two ↦ rw (named, decided, two) (judge-approves p)
    ]
  ]
]
