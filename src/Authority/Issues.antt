-- ===== src/Authority/Issues.antt =====
-- A grant that was issued stays the authority of its run
-- (src/mco/orchestrator/score_authority.py, `issue` and `load`).
use bit_cadence.Prelude.{
  ℕ, arith, ◌≡◌, refl, String, true, false, List, [], ◌∷◌, ◌++◌, str_eq, eq_iff, eq_refl,
  if◌then◌else◌, Raises, ok, err, require, bind-ok, then-ok, require-ok, ok-injective, ◌∙◌, sym,
  subst, ap, inl, inr, ◌⊎◌, Bool-cases, Result-cases,
}
use bit_cadence.Authority.{
  Body, Grant, Outside, Fault, is_long, key_too_short, different_authority, sign_grant,
  verify_grant_signature, is_for, rows_for, keep, issue, only, load, as_stored, signature_invalid,
}
use bit_cadence.Authority.Checks.{first-ok}

rows_for-append :
    (org run digest : String) (rows : List Grant) (g : Grant)
    → rows_for org run digest (rows ++ (g ∷ [])) ≡ (
        if is_for org run digest g
        then rows_for org run digest rows ++ (g ∷ [])
        else rows_for org run digest rows)
rows_for-append org run digest [] g = ground arith
rows_for-append org run digest (r ∷ rows) g = ground (arith, rows_for-append org run digest rows g)

for_only :
    (org run digest : String) (g : Grant)
    → is_for org run digest g ≡ true
    → (g.body.org_id ≡ org) × (g.body.run_id ≡ run) × (g.body.digest ≡ digest)
for_only org run digest g h =
    ground
      (arith, h, eq_iff g.body.org_id org, eq_iff g.body.run_id run, eq_iff g.body.digest digest)

one_row : (a b : Grant) (xs ys : List Grant) → Path (List Grant) (a ∷ xs) (b ∷ ys) → a ≡ b
one_row a b xs ys h = ap (λ l. elim l [ [] ↦ a | x ∷ rest ↦ x ]) h

filled : {g : Grant} → Path (List Grant) (g ∷ []) [] → ⊥
filled h = absurd (ground (arith, h))

module _ (o : Outside) (key : List ℕ) where
  abbrev pub signed_of : Body → Grant
  signed_of b = record { body = b; signature = o.hmac key b }

  -- the row of a grant with these fields
  abbrev pub row_of : Body → Grant
  row_of b = as_stored o (signed_of b)

  -- no row, or that of a grant signed with the key
  abbrev pub IsOne : List Grant → Type 0
  IsOne found = (found ≡ []) ⊎ ((b : Body) × (found ≡ row_of b ∷ []))

  -- At most one row for each run of a document, that of a grant signed with the key.
  abbrev pub IsLedger : List Grant → Type 0
  IsLedger rows = (org run digest : String) → IsOne (rows_for org run digest rows)

  -- What an issue has checked, and what it has done.
  issued :
      (b : Body) (rows : List Grant) (g : Grant) (rows' : List Grant)
      → issue o key b rows ≡ ok (g, rows')
      → (is_long key ≡ true)
        × (keep o (signed_of b) (rows_for b.org_id b.run_id b.digest rows) rows ≡ ok (g, rows'))
  unfolding issue sign_grant
  issued b rows g rows' h =
      let rest = then-ok _ _ (g, rows') h in
      let (signed, made, more) = bind-ok (sign_grant o b key) _ (g, rows') rest in
      let long : require (is_long key) key_too_short ≡ ok tt = first-ok _ _ signed made in
      let same : signed_of b ≡ signed =
        ok-injective (signed_of b) signed (then-ok _ _ signed made) in
      (
        require-ok _ _ tt long,
        subst (λ x. keep o x (rows_for b.org_id b.run_id b.digest rows) rows ≡ ok (g, rows'))
            (sym same) (then-ok _ _ (g, rows') more),
      )

  -- The grant is on record, the record is still a ledger, and it has every row that it had.
  pub record Kept (b : Body) (rows rows' : List Grant) (g : Grant) : Type 0 where
    pub ledger : IsLedger rows'
    pub recorded : rows_for b.org_id b.run_id b.digest rows' ≡ g ∷ []
    pub signature : g.signature ≡ o.hmac key b
    pub origin : (c : Body) × (g ≡ row_of c) × (o.hmac key c ≡ o.hmac key b)
    pub keeps :
        (org run digest : String) (row : Grant)
        → rows_for org run digest rows ≡ row ∷ []
        → rows_for org run digest rows' ≡ row ∷ []

  module _ (b : Body) (rows : List Grant) (l : IsLedger rows) where
    at_other :
        (org run digest : String)
        → is_for org run digest (row_of b) ≡ false
        → rows_for org run digest (rows ++ (row_of b ∷ [])) ≡ rows_for org run digest rows
    at_other org run digest other = rows_for-append org run digest rows (row_of b) ∙ rw other refl

    none_there :
        (org run digest : String)
        → rows_for b.org_id b.run_id b.digest rows ≡ []
        → is_for org run digest (row_of b) ≡ true
        → rows_for org run digest rows ≡ []
    none_there org run digest gone here =
        let (x, y, z) = for_only org run digest (row_of b) here in
        subst (λ c. rows_for org run c rows ≡ []) z
          (subst (λ c. rows_for org c b.digest rows ≡ []) y
            (subst (λ c. rows_for c b.run_id b.digest rows ≡ []) x gone))

    at_own :
        (org run digest : String)
        → rows_for b.org_id b.run_id b.digest rows ≡ []
        → is_for org run digest (row_of b) ≡ true
        → rows_for org run digest (rows ++ (row_of b ∷ [])) ≡ row_of b ∷ []
    at_own org run digest gone here =
        rows_for-append org run digest rows (row_of b)
        ∙ rw here (ap (λ x. x ++ (row_of b ∷ [])) (none_there org run digest gone here))

    is_own : is_for b.org_id b.run_id b.digest (row_of b) ≡ true
    is_own = ground (arith, eq_refl b.org_id, eq_refl b.run_id, eq_refl b.digest)

    added-Kept :
        rows_for b.org_id b.run_id b.digest rows ≡ []
        → Kept b rows (rows ++ (row_of b ∷ [])) (row_of b)
    added-Kept gone = record {
      ledger = λ org run digest. elim (Bool-cases (is_for org run digest (row_of b))) [
        | inl here ↦ inr (b, at_own org run digest gone here)
        | inr other ↦ subst IsOne (sym (at_other org run digest other)) (l org run digest)
      ];
      recorded = at_own b.org_id b.run_id b.digest gone is_own;
      signature = refl;
      origin = (b, refl, refl);
      keeps = λ org run digest row h. elim (Bool-cases (is_for org run digest (row_of b))) [
        | inl here ↦ absurd (filled (sym h ∙ none_there org run digest gone here))
        | inr other ↦ at_other org run digest other ∙ h
      ];
    }

    found-Kept :
        (row : Grant)
        → rows_for b.org_id b.run_id b.digest rows ≡ row ∷ []
        → row.signature ≡ o.hmac key b
        → Kept b rows rows row
    found-Kept row here same = record {
      ledger = l;
      recorded = here;
      signature = same;
      origin = elim (l b.org_id b.run_id b.digest) [
        | inl none ↦ absurd (filled (sym here ∙ none))
        | inr (c, there) ↦
            let one : row ≡ row_of c = one_row row (row_of c) [] [] (sym here ∙ there) in
            (c, one, sym (ap (λ x. x.signature) one) ∙ same)
      ];
      keeps = λ org run digest other h. h;
    }

    keep-Kept :
        (found : List Grant) (g : Grant) (rows' : List Grant)
        → rows_for b.org_id b.run_id b.digest rows ≡ found
        → IsOne found
        → keep o (signed_of b) found rows ≡ ok (g, rows')
        → Kept b rows rows' g
    unfolding keep
    keep-Kept [] g rows' e one h =
        let same : ◌≡◌ {A = Grant × List Grant} (row_of b, rows ++ (row_of b ∷ [])) (g, rows') =
          ok-injective _ _ h in
        subst (λ x. Kept b rows x.1 x.0) same (added-Kept e)
    keep-Kept (row ∷ more) g rows' e one h =
        let same : ◌≡◌ {A = Grant × List Grant} (row, rows) (g, rows') =
          ok-injective _ _ (then-ok _ _ (g, rows') h) in
        let agrees : require (str_eq row.signature (o.hmac key b)) different_authority ≡ ok tt =
          first-ok _ _ (g, rows') h in
        let equal : str_eq row.signature (o.hmac key b) ≡ true = require-ok _ _ tt agrees in
        let alone : more ≡ [] = elim one [
          | inl none ↦ absurd (ground (arith, none))
          | inr (x, here) ↦ ap (λ l. elim l [ [] ↦ more | y ∷ rest ↦ rest ]) here
        ] in
        subst (λ x. Kept b rows x.1 x.0) same
          (found-Kept row (e ∙ ap (λ x. row ∷ x) alone)
            (ground (arith, eq_iff row.signature (o.hmac key b), equal)))

  issue-Kept :
      (b : Body) (rows : List Grant) (g : Grant) (rows' : List Grant)
      → IsLedger rows
      → issue o key b rows ≡ ok (g, rows')
      → (is_long key ≡ true) × Kept b rows rows' g
  issue-Kept b rows g rows' l h =
      let (long, kept) = issued b rows g rows' h in
      (
        long,
        keep-Kept b rows l (rows_for b.org_id b.run_id b.digest rows) g rows' refl
            (l b.org_id b.run_id b.digest) kept,
      )

  -- the table after issues in a row, where a refused one leaves it as it is
  unfoldable pub after_issue : Raises Fault (Grant × List Grant) → List Grant → List Grant
  after_issue (ok (g, rows')) rows = rows'
  after_issue (err fault) rows = rows

  unfoldable pub issue_all : List Body → List Grant → List Grant
  issue_all [] rows = rows
  issue_all (b ∷ bs) rows = issue_all bs (after_issue (issue o key b rows) rows)

  -- The table is a ledger, and has the rows that it had for a run of a document.
  abbrev pub Stays : List Grant → List Grant → Type 0
  Stays rows rows' =
      IsLedger rows'
      × ((org run digest : String) (row : Grant)
          → rows_for org run digest rows ≡ row ∷ []
          → rows_for org run digest rows' ≡ row ∷ [])

  after_issue-Stays :
      (b : Body) (rows : List Grant)
      → IsLedger rows
      → Stays rows (after_issue (issue o key b rows) rows)
  unfolding after_issue
  after_issue-Stays b rows l = elim (Result-cases (issue o key b rows)) [
    | inl (made, e) ↦
        let (long, kept) = issue-Kept b rows made.0 made.1 l e in
        subst (λ r. Stays rows (after_issue r rows)) (sym e) (kept.ledger, kept.keeps)
    | inr (fault, e) ↦
        subst (λ r. Stays rows (after_issue r rows)) (sym e) (l, λ org run digest row h. h)
  ]

  issue_all-Stays :
      (bs : List Body) (rows : List Grant) → IsLedger rows → Stays rows (issue_all bs rows)
  unfolding issue_all
  issue_all-Stays [] rows l = (l, λ org run digest row h. h)
  issue_all-Stays (b ∷ bs) rows l =
      let (ledger, keeps) = after_issue-Stays b rows l in
      let (last, kept) = issue_all-Stays bs (after_issue (issue o key b rows) rows) ledger in
      (last, λ org run digest row h. kept org run digest row (keeps org run digest row h))

  -- what `load` answers where the one row is this
  abbrev pub Loaded : Grant → Raises Fault Grant
  Loaded g = if str_eq g.signature (o.hmac key g.body) then ok g else err signature_invalid

  load-recorded :
      (org run digest : String) (rows : List Grant) (g : Grant)
      → is_long key ≡ true
      → rows_for org run digest rows ≡ g ∷ []
      → load o key org run digest rows ≡ Loaded g
  unfolding load only verify_grant_signature
  load-recorded org run digest rows g long here =
      elim (Bool-cases (str_eq g.signature (o.hmac key g.body))) [
        | inl same ↦ rw (here, long, same) refl
        | inr other ↦ rw (here, long, other) refl
      ]

  -- A grant that is issued, after whatever was issued or refused before it, carries the signature over
  -- the fields that were handed in, and its fields are some that have that signature, the two times as
  -- the database spells them. Whatever is issued or refused after it, a lookup of its
  -- organisation, run and document has that grant alone: no later issue replaces it or adds a second
  -- one. `load` answers with it exactly where the signature is also the one over the fields as the
  -- database gives them back, and else raises for the signature.
  pub issue_all-load :
      (before after : List Body) (b : Body) (g : Grant) (rows : List Grant)
      → issue o key b (issue_all before []) ≡ ok (g, rows)
      → (g.signature ≡ o.hmac key b)
        × ((c : Body) × (g ≡ row_of c) × (o.hmac key c ≡ o.hmac key b))
        × (rows_for b.org_id b.run_id b.digest (issue_all after rows) ≡ g ∷ [])
        × (load o key b.org_id b.run_id b.digest (issue_all after rows)
            ≡ (if str_eq (o.hmac key b) (o.hmac key g.body) then ok g else err signature_invalid))
  issue_all-load before after b g rows h =
      let (ledger, _) = issue_all-Stays before [] (λ org run digest. inl refl) in
      let (long, kept) = issue-Kept b (issue_all before []) g rows ledger h in
      let (last, keeps) = issue_all-Stays after rows kept.ledger in
      let alone = keeps b.org_id b.run_id b.digest g kept.recorded in
      (
        kept.signature,
        kept.origin,
        alone,
        subst
            (λ s.
              load o key b.org_id b.run_id b.digest (issue_all after rows)
              ≡ (if str_eq s (o.hmac key g.body) then ok g else err signature_invalid))
            kept.signature
            (load-recorded b.org_id b.run_id b.digest (issue_all after rows) g long alone),
      )

  -- In a database that keeps the texts of the times, `load` finds every grant that was issued.
  pub issue_all-load_verbatim :
      (before after : List Body) (b : Body) (g : Grant) (rows : List Grant)
      → issue o key b (issue_all before []) ≡ ok (g, rows)
      → ((s : String) → o.stored s ≡ s)
      → load o key b.org_id b.run_id b.digest (issue_all after rows) ≡ ok g
  issue_all-load_verbatim before after b g rows h verbatim =
      let (_, (c, made, same), _, answer) = issue_all-load before after b g rows h in
      let kept : g.body ≡ c =
        ap (λ x. x.body) made ∙ rw (verbatim c.not_before, verbatim c.expires_at) refl in
      let agrees : str_eq (o.hmac key b) (o.hmac key g.body) ≡ true =
        rw kept (ground (arith, same, eq_refl (o.hmac key b))) in
      answer ∙ rw agrees refl
