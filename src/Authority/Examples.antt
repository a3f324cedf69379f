-- ===== src/Authority/Examples.antt =====
-- Tests of the authority of a score, and its theorems at concrete inputs.
use bit_cadence.Prelude.{
  ℕ, ◌≡◌, refl, String, List, [], ◌∷◌, ok, err, pos, ◌↔◌, if◌then◌else◌, str_eq, ◌++◌,
}
use bit_cadence.Authority.{
  at, Body, Grant, Outside, budget_exceeded, require_all, require_grant, verify_with,
  verify_grant_signature, sign_grant, issue, keep, only, load, require_issued, different_authority,
  signature_invalid, rows_for,
}
use bit_cadence.Authority.Uses.{IsAuthorized, require_issued-IsAuthorized}
use bit_cadence.Authority.Issues.{row_of, issue_all, after_issue, issue_all-load}

abbrev python : Outside
python = record {
  read = λ s. if str_eq s "start" then at 10 else at 20;
  hmac = λ key b. b.human_principal;
  digest_of = λ g. g.signature;
  stored = λ s. s;
}

abbrev eight : List ℕ
eight = 1 ∷ 2 ∷ 3 ∷ 4 ∷ 5 ∷ 6 ∷ 7 ∷ 8 ∷ []

abbrev key : List ℕ
key = eight ++ (eight ++ (eight ++ eight))

abbrev body : String → Body
body owner = record {
  org_id = "org";
  run_id = "run";
  digest = "digest";
  actions = "build" ∷ [];
  resources = "repo" ∷ [];
  env = "sandbox";
  not_before = "start";
  expires_at = "end";
  budget_cents = pos 500;
  human_principal = owner;
}

abbrev grant : Grant
grant = record { body = body "ada"; signature = "ada" }

-- A second grant of another owner for the same run is refused.
issue-different : issue python key (body "bob") (grant ∷ []) ≡ err different_authority
unfolding issue require_all sign_grant verify_grant_signature keep only load require_grant
    verify_with require_issued issue_all after_issue
issue-different = refl

require_issued-over_budget :
    require_issued python key "org" "run" "digest" "build" "repo" "sandbox"
      (pos 501)
      "ada"
      15
      (grant ∷ [])
    ≡ err budget_exceeded
unfolding issue require_all sign_grant verify_grant_signature keep only load require_grant
    verify_with require_issued issue_all after_issue
require_issued-over_budget = refl

require_issued-IsAuthorized_example :
    (require_issued python key "org" "run" "digest" "build" "repo" "sandbox"
        (pos 500)
        "ada"
        15
        (grant ∷ [])
      ≡ ok (grant, "ada"))
    ↔ IsAuthorized python key "org" "run" "digest" "build" "repo" "sandbox"
        (pos 500)
        "ada"
        15
        (grant ∷ [])
        grant
        "ada"
require_issued-IsAuthorized_example =
    require_issued-IsAuthorized python key "org" "run" "digest" "build" "repo" "sandbox" (pos 500)
      "ada" 15 (grant ∷ []) grant "ada"

require_issued-grant :
    require_issued python key "org" "run" "digest" "build" "repo" "sandbox"
      (pos 500)
      "ada"
      15
      (grant ∷ [])
    ≡ ok (grant, "ada")
unfolding issue require_all sign_grant verify_grant_signature keep only load require_grant
    verify_with require_issued issue_all after_issue
require_issued-grant = refl

-- a signature that covers the first of the times, in a database that writes times in a way of its own
abbrev rewriting : Outside
rewriting = record python { hmac = λ key b. b.not_before; stored = λ s. "normal" }

abbrev rewritten : Grant
rewritten = record {
  body = record (body "ada") { not_before = "normal"; expires_at = "normal" };
  signature = "start";
}

-- A grant that is issued, and that `load` refuses.
load-rewritten : load rewriting key "org" "run" "digest" (rewritten ∷ []) ≡ err signature_invalid
unfolding load only verify_grant_signature
load-rewritten = refl

issue_all-load_example :
    ("start" ≡ rewriting.hmac key (body "ada"))
    × ((c : Body) × (rewritten ≡ row_of rewriting key c)
        × (rewriting.hmac key c ≡ rewriting.hmac key (body "ada")))
    × (rows_for "org" "run" "digest" (issue_all rewriting key (body "bob" ∷ []) (rewritten ∷ []))
        ≡ rewritten ∷ [])
    × (load rewriting key "org" "run" "digest"
          (issue_all rewriting key (body "bob" ∷ []) (rewritten ∷ []))
        ≡ (if str_eq "start" (rewriting.hmac key rewritten.body)
            then ok rewritten
            else err signature_invalid))
unfolding issue require_all sign_grant verify_grant_signature keep only load require_grant
    verify_with require_issued issue_all after_issue
issue_all-load_example =
    issue_all-load rewriting key [] (body "bob" ∷ []) (body "ada") rewritten (rewritten ∷ []) refl
