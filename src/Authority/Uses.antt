-- ===== src/Authority/Uses.antt =====
-- What a use of an issued grant is allowed for (src/mco/orchestrator/score_authority.py, `require`).
use bit_cadence.Prelude.{
  ℕ, arith, ◌≤◌, ◌<◌, ◌≡◌, refl, String, true, List, [], ◌∷◌, contains, eq_iff, ℤ, pos, leb_ℤ, ok,
  bind-ok, then-ok, ok-injective, subst, ◌↔◌,
}
use bit_cadence.Authority.{
  Stamp, at, naive, unreadable, Body, Grant, Outside, is_long, starts_by, ends_after, Scope,
  verify_grant_signature, verify_with, scope_checks, require_grant, full_scope, only, rows_for,
  load, require_issued,
}
use bit_cadence.Authority.Checks.{
  Holds, verify_grant_signature-ok, ok-verify_grant_signature, require_grant-ok, ok-require_grant,
  only-ok, first-ok,
}

started : (s : Stamp) (now : ℕ) → starts_by s now ≡ true → (t : ℕ) × (s ≡ at t) × (t ≤ now)
started (at t) now h = (t, refl, ground arith)
started naive now h = absurd (ground arith)
started unreadable now h = absurd (ground arith)

unended : (s : Stamp) (now : ℕ) → ends_after s now ≡ true → (t : ℕ) × (s ≡ at t) × (now < t)
unended (at t) now h = (t, refl, ground arith)
unended naive now h = absurd (ground arith)
unended unreadable now h = absurd (ground arith)

module _ (o : Outside) (key : List ℕ) (org run digest action resource environment : String)
    (cost : ℤ) (owner : String) (now : ℕ) where
  -- The grant is bound to the run of the document, and allows the action on the resource.
  abbrev pub Covers : Body → Type 0
  Covers b =
      (b.org_id ≡ org)
      × (b.digest ≡ digest)
      × (b.run_id ≡ run)
      × (b.env ≡ environment)
      × (b.human_principal ≡ owner)
      × (contains action b.actions ≡ true)
      × (contains resource b.resources ≡ true)
      × (leb_ℤ (pos 0) cost ≡ true)
      × (leb_ℤ cost b.budget_cents ≡ true)

  -- Now is in its window.
  abbrev pub IsCurrent : Body → Type 0
  IsCurrent b =
      ((t : ℕ) × (o.read b.not_before ≡ at t) × (t ≤ now))
      × ((t : ℕ) × (o.read b.expires_at ≡ at t) × (now < t))

  -- The grant is the only one on record for the run of the document, signed with the key.
  pub record IsAuthorized (rows : List Grant) (g : Grant) (id : String) : Type 0 where
    pub issued : rows_for org run digest rows ≡ g ∷ []
    pub long : is_long key ≡ true
    pub signed : g.signature ≡ o.hmac key g.body
    pub covers : Covers g.body
    pub current : IsCurrent g.body
    pub named : o.digest_of g ≡ id

  abbrev scope : Scope
  scope = full_scope key org run digest action resource environment cost owner

  checks-Covers :
      (g : Grant) → Holds (scope_checks o g scope now) → Covers g.body × IsCurrent g.body
  checks-Covers g
        (a, (b, (bound, (act, (r, (res, (env, (own, (c, (d, (e, (f, (start, (end, u)))))))))))))) =
      (
        (
          ground (arith, bound, eq_iff g.body.org_id org),
          ground (arith, bound, eq_iff g.body.digest digest),
          ground (arith, r, eq_iff g.body.run_id run),
          ground (arith, env, eq_iff g.body.env environment),
          ground (arith, own, eq_iff g.body.human_principal owner),
          act,
          res,
          c,
          d,
        ),
        (started (o.read g.body.not_before) now start, unended (o.read g.body.expires_at) now end),
      )

  Covers-checks :
      (g : Grant) → Covers g.body → IsCurrent g.body → Holds (scope_checks o g scope now)
  Covers-checks g (a, b, r, env, own, act, res, c, d) ((s, start, before), (t, end, after)) = (
    refl,
    (
      refl,
      (
        ground (arith, a, b, eq_iff g.body.org_id org, eq_iff g.body.digest digest),
        (
          act,
          (
            ground (arith, r, eq_iff g.body.run_id run),
            (
              res,
              (
                ground (arith, env, eq_iff g.body.env environment),
                (
                  ground (arith, own, eq_iff g.body.human_principal owner),
                  (
                    c,
                    (
                      d,
                      (
                        rw end refl,
                        (rw start refl, (rw start (ground arith), (rw end (ground arith), tt))),
                      ),
                    ),
                  ),
                ),
              ),
            ),
          ),
        ),
      ),
    ),
  )

  loaded :
      (rows : List Grant) (g : Grant)
      → load o key org run digest rows ≡ ok g
      → (rows_for org run digest rows ≡ g ∷ [])
        × (is_long key ≡ true)
        × (g.signature ≡ o.hmac key g.body)
  unfolding load
  loaded rows g h =
      let (row, found, rest) = bind-ok (only (rows_for org run digest rows)) _ g h in
      let same : row ≡ g = ok-injective row g (then-ok _ _ g rest) in
      let verified : verify_grant_signature o row key ≡ ok tt = first-ok _ _ g rest in
      let (long, signed) = verify_grant_signature-ok o key row verified in
      (
        subst (λ x. rows_for org run digest rows ≡ x ∷ []) same
            (only-ok (rows_for org run digest rows) row found),
        long,
        subst (λ x. x.signature ≡ o.hmac key x.body) same signed,
      )

  authorized :
      (rows : List Grant) (g : Grant) (id : String)
      → require_issued o key org run digest action resource environment cost owner now rows
        ≡ ok (g, id)
      → IsAuthorized rows g id
  unfolding require_issued
  authorized rows g id h =
      let (row, found, rest) = bind-ok (load o key org run digest rows) _ (g, id) h in
      let (name, passed, last) = bind-ok (require_grant o row scope now) _ (g, id) rest in
      let pair : ◌≡◌ {A = Grant × String} (row, name) (g, id) =
        ok-injective (row, name) (g, id) last in
      let (issued, long, signed) = loaded rows row found in
      let (checks, verified, named) = require_grant-ok o row scope now name passed in
      let (covers, current) = checks-Covers row checks in
      let all : IsAuthorized rows row name = record {
        issued = issued;
        long = long;
        signed = signed;
        covers = covers;
        current = current;
        named = named;
      } in
      subst (λ x. IsAuthorized rows x.0 x.1) pair all

  permitted :
      (rows : List Grant) (g : Grant) (id : String)
      → IsAuthorized rows g id
      → require_issued o key org run digest action resource environment cost owner now rows
        ≡ ok (g, id)
  unfolding require_issued load only verify_with
  permitted rows g id a =
      let verified : verify_grant_signature o g key ≡ ok tt =
        ok-verify_grant_signature o key g a.long a.signed in
      let passed : require_grant o g scope now ≡ ok (o.digest_of g) =
        ok-require_grant o g scope now (Covers-checks g a.covers a.current) verified in
      rw (a.issued, verified, passed, a.named) refl

  -- The service lets a caller act exactly where its key has 32 bytes at least, one grant is on record for
  -- the organisation, the run and the document, it carries the signature of the key over its fields, its
  -- fields are for the organisation, the run, the document, the environment and the owner that are asked
  -- for, it lists the action and the resource, the cost is not negative and within the budget, and now is
  -- in its window; and then it answers with that grant and its identity.
  pub require_issued-IsAuthorized :
      (rows : List Grant) (g : Grant) (id : String)
      → (require_issued o key org run digest action resource environment cost owner now rows
          ≡ ok (g, id))
        ↔ IsAuthorized rows g id
  require_issued-IsAuthorized rows g id = (authorized rows g id, permitted rows g id)
