-- ===== src/Score/Gates.antt =====
-- What the checkpoints of a score promise (src/mco/orchestrator/score_policy.py, `GateService`).
use bit_cadence.Prelude.{
  ◌≡◌, refl, sym, ap, subst, ◌∙◌, String, true, false, ◌&&◌, not, Option, none, some, List, [], ◌∷◌,
  ◌++◌, arith, is_some, str_eq, eq_refl, Bool-cases, inl, inr, ok, err, bind-ok, then-ok,
  require-ok, ok-injective, is_blank, require,
}
use bit_cadence.Score.Policy.{
  Checked, GateKind, GateKey, GateRow, GateStore, GateStatus, DecisionRow, Evidence, Caller,
  find_gate, find_decision, same_key, same_kind, set_status, request, request_row, kind_allows,
  decide, decide_row, decision_for, is_pending, authenticated_human, read_decision, org_of,
  other_kind, g08_launch_signoff, spend_above_cap, is_known, is_empty_evidence, same_evidence,
  evidence_mismatch, no_evidence, gate_incomplete, gate_kind_refused, already_decided,
  duplicate_decision, gate_missing, task_checkpoint, gateway_restart_authorization,
}

same_kind_refl : (k : GateKind) → same_kind k k ≡ true
unfolding same_kind
same_kind_refl g08_launch_signoff = refl
same_kind_refl spend_above_cap = refl
same_kind_refl task_checkpoint = refl
same_kind_refl gateway_restart_authorization = refl
same_kind_refl (other_kind s) = eq_refl s

same_key_refl : (k : GateKey) → same_key k k ≡ true
unfolding same_key
same_key_refl k =
    rw (eq_refl k.org_id, eq_refl k.run_id, eq_refl k.digest, eq_refl k.task_id)
      (same_kind_refl k.kind)

find_gate-append :
    (k : GateKey) (gs hs : List GateRow)
    → is_some (find_gate k gs) ≡ true
    → is_some (find_gate k (gs ++ hs)) ≡ true
unfolding find_gate
find_gate-append k [] hs h = absurd (ground arith)
find_gate-append k (g ∷ gs) hs h = elim (Bool-cases (same_key g.key k)) [
  | inl same ↦ rw same refl
  | inr other ↦ rw other (find_gate-append k gs hs (rw (other, find_gate) at h))
]

find_gate-set_status :
    (k j : GateKey) (st : GateStatus) (gs : List GateRow)
    → is_some (find_gate j (set_status k st gs)) ≡ is_some (find_gate j gs)
unfolding find_gate set_status
find_gate-set_status k j st [] = refl
find_gate-set_status k j st (g ∷ gs) = elim (Bool-cases (same_key g.key k && is_pending g.status)) [
  | inl hit ↦ elim (Bool-cases (same_key g.key j)) [
    | inl same ↦ rw (hit, same) refl
    | inr other ↦ rw (hit, other) (find_gate-set_status k j st gs)
  ]
  | inr miss ↦ elim (Bool-cases (same_key g.key j)) [
    | inl same ↦ rw (miss, same) refl
    | inr other ↦ rw (miss, other) (find_gate-set_status k j st gs)
  ]
]

find_decision-append :
    (k : GateKey) (ds es : List DecisionRow) (d : DecisionRow)
    → find_decision k ds ≡ some d
    → find_decision k (ds ++ es) ≡ some d
unfolding find_decision
find_decision-append k [] es d h = absurd (ground arith)
find_decision-append k (c ∷ ds) es d h = elim (Bool-cases (same_key c.gate k)) [
  | inl same ↦ rw same (rw (same, find_decision) at h)
  | inr other ↦ rw other (find_decision-append k ds es d (rw (other, find_decision) at h))
]

find_decision-new :
    (k : GateKey) (ds : List DecisionRow) (d : DecisionRow)
    → is_some (find_decision k ds) ≡ false
    → d.gate ≡ k
    → find_decision k (ds ++ d ∷ []) ≡ some d
unfolding find_decision
find_decision-new k [] d h q = rw (q, same_key_refl k) refl
find_decision-new k (c ∷ ds) d h q = elim (Bool-cases (same_key c.gate k)) [
  | inl same ↦ absurd (ground arith)
  | inr other ↦ rw other (find_decision-new k ds d (rw (other, find_decision) at h) q)
]

-- The second store has every gate and every decision of the first.
pub record Extends (s t : GateStore) : Type 0 where
  pub gates :
      (k : GateKey)
      → is_some (find_gate k s.requests) ≡ true
      → is_some (find_gate k t.requests) ≡ true
  pub settled :
      (k : GateKey) (d : DecisionRow)
      → find_decision k s.decisions ≡ some d
      → find_decision k t.decisions ≡ some d

Extends-refl : (s : GateStore) → Extends s s
Extends-refl s = record { gates = λ k h. h; settled = λ k d h. h }

decision_for-Extends :
    (k : GateKey) (s t : GateStore) (d : DecisionRow)
    → Extends s t
    → decision_for k s ≡ some d
    → decision_for k t ≡ some d
unfolding decision_for
decision_for-Extends k s t d x h = elim (Bool-cases (is_some (find_gate k s.requests))) [
  | inl there ↦ rw (x.gates k there) (x.settled k d (rw (there, decision_for) at h))
  | inr gone ↦ absurd (ground arith)
]

row-Extends :
    (k : GateKey) (e : Evidence) (o : Option GateRow) (s : GateStore) (x : GateRow × GateStore)
    → request_row k e o s ≡ ok x
    → Extends s x.1
unfolding request_row
row-Extends k e none s x h = record {
  gates = λ j there.
      rw (sym (ap (λ z. z.1.requests) (ok-injective _ _ h)))
        (find_gate-append j s.requests _ there);
  settled = λ j d there. rw (sym (ap (λ z. z.1.decisions) (ok-injective _ _ h))) there;
}
row-Extends k e (some g) s x h =
    let q : s ≡ x.1 =
      ap (λ z. z.1)
        (ok-injective (g, s) x
          (then-ok (require (same_evidence g.evidence e) evidence_mismatch) (ok (g, s)) x h)) in
    rw (sym q) (Extends-refl s)

request-Extends :
    (k : GateKey) (e : Evidence) (s : GateStore) (x : GateRow × GateStore)
    → request k e s ≡ ok x
    → Extends s x.1
unfolding request
request-Extends k e s x h = row-Extends k e (find_gate k s.requests) s x (
    then-ok (kind_allows k e) _ x (
      then-ok (require (not (is_empty_evidence e)) no_evidence) _ x (
        then-ok
          (require
            (not (is_blank k.org_id)
              && not (is_blank k.run_id)
              && not (is_blank k.digest)
              && not (is_blank k.task_id))
            gate_incomplete)
          _ x (then-ok (require (is_known k.kind) gate_kind_refused) _ x h))))

-- What a decision that is taken shows: the row that is put down, and the store before and after.
pub record IsDecided (k : GateKey) (c : Caller) (word reason : String) (s : GateStore)
    (x : DecisionRow × GateStore) : Type 0 where
  pub authenticated : authenticated_human c ≡ ok x.0.human_principal
  pub said : read_decision word ≡ ok x.0.decision
  pub own_org : str_eq k.org_id (org_of c) ≡ true
  pub undecided : decision_for k s ≡ none
  pub kept : decision_for k x.1 ≡ some x.0
  pub extends : Extends s x.1

nothing : {A : Type 0} (o : Option A) → is_some o ≡ false → o ≡ none
nothing none h = refl
nothing (some a) h = absurd (ground arith)

decided-Extends :
    (k : GateKey) (st : GateStatus) (row : DecisionRow) (s : GateStore)
    → Extends s
        (record { requests = set_status k st s.requests; decisions = s.decisions ++ row ∷ [] })
decided-Extends k st row s = record {
  gates = λ j there. find_gate-set_status k j st s.requests ∙ there;
  settled = λ j d there. find_decision-append j s.decisions (row ∷ []) d there;
}

decide_row-undecided :
    (k : GateKey) (st : GateStatus) (principal reason : String) (o : Option GateRow) (s : GateStore)
    (x : DecisionRow × GateStore)
    → find_gate k s.requests ≡ o
    → decide_row k st principal reason o s ≡ ok x
    → (x.0.decision ≡ st)
      × (x.0.human_principal ≡ principal)
      × (decision_for k s ≡ none)
      × (decision_for k x.1 ≡ some x.0)
      × Extends s x.1
unfolding decide_row decision_for
decide_row-undecided k st principal reason none s x p h = absurd (ground arith)
decide_row-undecided k st principal reason (some g) s x p h =
    let row : DecisionRow = record {
      gate = k;
      decision = st;
      human_principal = principal;
      reason = reason;
    } in
    let t : GateStore = record {
      requests = set_status k st s.requests;
      decisions = s.decisions ++ row ∷ [];
    } in
    let h1 = then-ok (require (is_pending g.status) already_decided) _ x h in
    let (u, p2, h2) =
      bind-ok (require (not (is_some (find_decision k s.decisions))) duplicate_decision) _ x h1 in
    let first : is_some (find_decision k s.decisions) ≡ false =
      ground (arith, require-ok _ duplicate_decision u p2) in
    let q : (row, t) ≡ x = ok-injective (row, t) x h2 in
    subst
      (λ y.
        (y.0.decision ≡ st)
        × (y.0.human_principal ≡ principal)
        × (decision_for k s ≡ none)
        × (decision_for k y.1 ≡ some y.0)
        × Extends s y.1)
      q
      (
        refl,
        refl,
        rw (p) (nothing (find_decision k s.decisions) first),
        rw (find_gate-set_status k k st s.requests, p)
            (find_decision-new k s.decisions row first refl),
        decided-Extends k st row s,
      )

-- A decision that a gate takes is by an authenticated human of the gate's organisation, is what the caller's
-- word says, and is the first of its gate: there was none before, it stands after, and no gate and
-- no decision that the store had is lost.
pub decide-first :
    (k : GateKey) (c : Caller) (word reason : String) (s : GateStore) (x : DecisionRow × GateStore)
    → decide k c word reason s ≡ ok x
    → IsDecided k c word reason s x
unfolding decide
decide-first k c word reason s x h =
    let (principal, human, h1) = bind-ok (authenticated_human c) _ x h in
    let (st, said, h2) = bind-ok (read_decision word) _ x h1 in
    let (u, own, h3) = bind-ok (require (str_eq k.org_id (org_of c)) gate_missing) _ x h2 in
    let (a, b, none_yet, stands, more) =
      decide_row-undecided k st principal reason (find_gate k s.requests) s x refl h3 in
    record {
      authenticated = rw b human;
      said = rw a said;
      own_org = require-ok _ gate_missing u own;
      undecided = none_yet;
      kept = stands;
      extends = more;
    }

pub data GateCall : Type 0 where
  requests : GateKey → Evidence → GateCall
  decides : GateKey → Caller → String → String → GateCall

-- the store that a call leaves
abbrev pub left_by : {A : Type 0} → GateStore → Checked (A × GateStore) → GateStore
left_by s (ok (a, t)) = t
left_by s (err reason) = s

unfoldable pub serve : GateStore → List GateCall → GateStore
unfolding request decide
serve s [] = s
serve s (requests k e ∷ cs) = serve (left_by s (request k e s)) cs
serve s (decides k c word reason ∷ cs) = serve (left_by s (decide k c word reason s)) cs

left_by-Extends :
    {A : Type 0} (s : GateStore) (m : Checked (A × GateStore))
    → ((x : A × GateStore) → m ≡ ok x → Extends s x.1)
    → Extends s (left_by s m)
left_by-Extends s (ok (a, t)) f = f (a, t) refl
left_by-Extends s (err reason) f = Extends-refl s

-- A decision once taken is the decision of its gate for good, whatever is asked of the store after it.
pub serve-settled :
    (k : GateKey) (d : DecisionRow) (s : GateStore) (cs : List GateCall)
    → decision_for k s ≡ some d
    → decision_for k (serve s cs) ≡ some d
unfolding serve
serve-settled k d s [] h = h
serve-settled k d s (requests j e ∷ cs) h = serve-settled k d (left_by s (request j e s)) cs (
    decision_for-Extends k s (left_by s (request j e s)) d
      (left_by-Extends s (request j e s) (request-Extends j e s)) h)
serve-settled k d s (decides j c word reason ∷ cs) h =
    serve-settled k d (left_by s (decide j c word reason s)) cs (
      decision_for-Extends k s (left_by s (decide j c word reason s)) d
        (left_by-Extends s (decide j c word reason s)
          (λ x q. (decide-first j c word reason s x q).extends))
        h)
