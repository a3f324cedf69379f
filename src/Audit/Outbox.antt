-- ===== src/Audit/Outbox.antt =====
-- The outbox of state changes, and its rows as events of the trail
-- (src/mco/orchestrator/audit.py, `drain_outbox`).
use bit_cadence.Prelude.{
  ℕ, suc, ◌≡◌, refl, String, Bool, true, false, Option, none, some, List, [], ◌∷◌, ◌++◌, arith,
  str_eq, eq_refl, eq_iff, not, ◌&&◌, ◌||◌, contains, filter_by, get_or, Bool-cases, Option-cases,
  inl, inr, All, sym, subst, ◌∙◌,
}
use bit_cadence.Audit.{
  Content, Row, Outside, is_recorded, with_time, last_event, timely, sealed, hash_of, append_event,
  record_event,
}
use bit_cadence.Audit.Chain.{IsSound}
use bit_cadence.Audit.Honest.{Trails, record_event-Trails}

pub record Entry (D : Type 0) : Type 0 where
  pub id : String
  pub job_id : String
  pub event : String
  pub detail : D

module _ {D : Type 0} where
  abbrev pub content_for : Entry D → Content D
  content_for x = record {
    job_id = x.job_id;
    event = x.event;
    actor_id = some "system";
    actor_role = some "store";
    detail = x.detail;
    created_at = "";
  }

  -- The rows that no event of the table comes from.
  abbrev pub pending : List (Row D) → List (Entry D) → List (Entry D)
  pending rows = filter_by (λ x. not (is_recorded (some x.id) rows))

-- `clock` is the time that is read when the row is written.
module _ {D : Type 0} (o : Outside D) (key : Option String) (clock : String → ℕ) where
  unfoldable pub write_pending :
      List (Entry D) → List String → List (Row D) → Option (ℕ × List (Row D))
  write_pending [] seen rows = some (0, rows)
  write_pending (x ∷ xs) seen rows = elim (contains x.id seen) [
    | true ↦ write_pending xs seen rows
    | false ↦ elim (record_event o key (clock x.id) (some x.id) (content_for x) rows) [
      | none ↦ none
      | some (good, rows') ↦ elim (write_pending xs (x.id ∷ seen) rows') [
        | none ↦ none
        | some (n, rows'') ↦ some (suc n, rows'')
      ]
    ]
  ]

  unfoldable pub drain_outbox : List (Entry D) → List (Row D) → Option (ℕ × List (Row D))
  drain_outbox outbox rows = write_pending (pending rows outbox) [] rows

-- The rows have ids and are of jobs.
abbrev pub IsNamed : {D : Type 0} → Entry D → Type 0
IsNamed x = (str_eq x.id "" ≡ false) × (str_eq x.job_id "" ≡ false)

is_recorded-append :
    {D : Type 0} (id : String) (rows : List (Row D)) (r : Row D)
    → is_recorded (some id) (rows ++ (r ∷ []))
      ≡ (is_recorded (some id) rows || (not (str_eq id "") && str_eq (get_or "" r.outbox_id) id))
is_recorded-append id [] r = ground arith
is_recorded-append id (q ∷ rows) r = ground (arith, is_recorded-append id rows r)

module _ {D : Type 0} (o : Outside D) (key : Option String) where
  sealed-outbox :
      (prev : String) (outbox : Option String) (c : Content D) (r : Row D)
      → sealed o key prev outbox c ≡ some r
      → r.outbox_id ≡ outbox
  unfolding sealed
  sealed-outbox prev outbox c r h = ground (arith, h)

  appended :
      (outbox : Option String) (c : Content D) (rows rows' : List (Row D))
      → append_event o key outbox c rows ≡ some rows'
      → (r : Row D) × (rows' ≡ rows ++ (r ∷ [])) × (r.outbox_id ≡ outbox)
  unfolding append_event
  appended outbox c rows rows' h = elim (Option-cases (timely o (last_event o c.job_id rows) c)) [
    | inl gone ↦ absurd (ground (arith, h, gone))
    | inr (c', e) ↦
        elim (Option-cases (sealed o key (hash_of (last_event o c.job_id rows)) outbox c')) [
          | inl gone ↦ absurd (ground (arith, h, e, gone))
          | inr (r, f) ↦ (r, ground (arith, h, e, f), sealed-outbox _ outbox c' r f)
        ]
  ]

  -- A write makes its outbox row recorded, and leaves those that are so.
  pub record_event-recorded :
      (now : ℕ) (id : String) (c : Content D) (rows : List (Row D)) (good : Bool)
      (rows' : List (Row D))
      → str_eq id "" ≡ false
      → str_eq c.job_id "" ≡ false
      → record_event o key now (some id) c rows ≡ some (good, rows')
      → (is_recorded (some id) rows' ≡ true)
        × ((k : String) → is_recorded (some k) rows ≡ true → is_recorded (some k) rows' ≡ true)
  unfolding record_event
  record_event-recorded now id c rows good rows' named job h =
      elim (Bool-cases (is_recorded (some id) rows)) [
        | inl there ↦
            let same : rows ≡ rows' = ground (arith, h, job, there) in
            (
              subst (λ x. is_recorded (some id) x ≡ true) same there,
              λ k f. subst (λ x. is_recorded (some k) x ≡ true) same f,
            )
        | inr fresh ↦
            elim (Option-cases (append_event o key (some id) (with_time c (o.micro now)) rows)) [
              | inl gone ↦ absurd (ground (arith, h, job, fresh, gone))
              | inr (next, e) ↦
                  let same : next ≡ rows' = ground (arith, h, job, fresh, e) in
                  let (r, made, from) =
                    appended (some id) (with_time c (o.micro now)) rows next e in
                  let whole : rows' ≡ rows ++ (r ∷ []) = sym same ∙ made in
                  (
                    subst (λ x. is_recorded (some id) x ≡ true) (sym whole)
                        (ground (arith, is_recorded-append id rows r, from, named, eq_refl id)),
                    λ k f.
                        subst (λ x. is_recorded (some k) x ≡ true) (sym whole)
                          (ground (arith, is_recorded-append k rows r, f)),
                  )
            ]
      ]

-- Every row of the outbox is an event of the table.
abbrev pub AllRecorded : {D : Type 0} → List (Entry D) → List (Row D) → Type 0
AllRecorded xs rows = All (λ x. is_recorded (some x.id) rows ≡ true) xs

all-keep :
    {D : Type 0} (xs : List (Entry D)) (a b : List (Row D))
    → ((k : String) → is_recorded (some k) a ≡ true → is_recorded (some k) b ≡ true)
    → AllRecorded xs a
    → AllRecorded xs b
all-keep [] a b f h = tt
all-keep (x ∷ xs) a b f (here, h) = (f x.id here, all-keep xs a b f h)

none_pending :
    {D : Type 0} (xs : List (Entry D)) (rows : List (Row D))
    → AllRecorded xs rows
    → pending rows xs ≡ []
none_pending [] rows h = refl
none_pending (x ∷ xs) rows (here, h) = ground (arith, here, none_pending xs rows h)

pending-IsNamed :
    {D : Type 0} (xs : List (Entry D)) (rows : List (Row D))
    → All IsNamed xs
    → All IsNamed (pending rows xs)
pending-IsNamed [] rows h = tt
pending-IsNamed (x ∷ xs) rows (here, h) = elim (Bool-cases (is_recorded (some x.id) rows)) [
  | inl there ↦ rw there (pending-IsNamed xs rows h)
  | inr fresh ↦ rw fresh (here, pending-IsNamed xs rows h)
]

-- What was recorded, and what was pending, are all of the rows.
all_pending :
    {D : Type 0} (xs : List (Entry D)) (a b : List (Row D))
    → ((k : String) → is_recorded (some k) a ≡ true → is_recorded (some k) b ≡ true)
    → AllRecorded (pending a xs) b
    → AllRecorded xs b
all_pending [] a b f h = tt
all_pending (x ∷ xs) a b f h = elim (Bool-cases (is_recorded (some x.id) a)) [
  | inl there ↦ (f x.id there, all_pending xs a b f (rw there at h))
  | inr fresh ↦ let (here, rest) = rw fresh at h in (here, all_pending xs a b f rest)
]

write_one :
    {D : Type 0} (o : Outside D) (key : Option String) (clock : String → ℕ) (x : Entry D)
    (xs : List (Entry D)) (seen : List String) (rows : List (Row D)) (good : Bool)
    (next : List (Row D)) (n : ℕ) (after : List (Row D))
    → contains x.id seen ≡ false
    → record_event o key (clock x.id) (some x.id) (content_for x) rows ≡ some (good, next)
    → write_pending o key clock xs (x.id ∷ seen) next ≡ some (n, after)
    → write_pending o key clock (x ∷ xs) seen rows ≡ some (suc n, after)
unfolding write_pending
write_one o key clock x xs seen rows good next n after fresh e h = ground (arith, fresh, e, h)

module _ {D : Type 0} (o : Outside D) (key : Option String) (clock : String → ℕ)
    (sound : IsSound o) where
  -- Where a run of the loop ends.
  pub record Written (xs : List (Entry D)) (seen : List String) (rows : List (Row D)) : Type 0 where
    pub number : ℕ
    pub after : List (Row D)
    pub result : write_pending o key clock xs seen rows ≡ some (number, after)
    pub trails : Trails o key after
    pub keeps : (k : String) → is_recorded (some k) rows ≡ true → is_recorded (some k) after ≡ true
    pub all : AllRecorded xs after

  write_pending-Written :
      (xs : List (Entry D)) (seen : List String) (rows : List (Row D))
      → All IsNamed xs
      → Trails o key rows
      → ((k : String) → contains k seen ≡ true → is_recorded (some k) rows ≡ true)
      → Written xs seen rows
  unfolding write_pending
  write_pending-Written [] seen rows named t f = record {
    number = 0;
    after = rows;
    result = refl;
    trails = t;
    keeps = λ k h. h;
    all = tt;
  }
  write_pending-Written (x ∷ xs) seen rows ((id, job), named) t f =
      elim (Bool-cases (contains x.id seen)) [
        | inl there ↦
            let r = write_pending-Written xs seen rows named t f in
            record {
              number = r.number;
              after = r.after;
              result = rw (there, write_pending) r.result;
              trails = r.trails;
              keeps = r.keeps;
              all = (r.keeps x.id (f x.id there), r.all);
            }
        | inr fresh ↦
            let (good, next, e, trails) =
              record_event-Trails o key sound (clock x.id) (some x.id) (content_for x) rows t in
            let (here, kept) =
              record_event-recorded o key (clock x.id) x.id (content_for x) rows good next id job
                e in
            let r = write_pending-Written xs (x.id ∷ seen) next named trails (λ k c.
              elim (Bool-cases (str_eq x.id k)) [
                | inl same ↦
                    let equal : x.id ≡ k = ground (arith, eq_iff x.id k) in
                    subst (λ y. is_recorded (some y) next ≡ true) equal here
                | inr other ↦ kept k (f k (rw other at c))
              ]) in
            record {
              number = suc r.number;
              after = r.after;
              result =
                  write_one o key clock x xs seen rows good next r.number r.after fresh e r.result;
              trails = r.trails;
              keeps = λ k h. r.keeps k (kept k h);
              all = (r.keeps x.id here, r.all);
            }
      ]

  -- After any history that left every trail a chain, the outbox is drained without an error: every row of
  -- it is then an event of the table, the trails are chains still, and to drain it again, at any time,
  -- writes nothing. The outbox's rows have ids and are of jobs.
  pub drain_outbox-once :
      (outbox : List (Entry D)) (rows : List (Row D))
      → All IsNamed outbox
      → Trails o key rows
      → (n : ℕ) × (after : List (Row D)) × (drain_outbox o key clock outbox rows ≡ some (n, after))
        × AllRecorded outbox after
        × Trails o key after
        × ((later : String → ℕ) → drain_outbox o key later outbox after ≡ some (0, after))
  unfolding drain_outbox write_pending
  drain_outbox-once outbox rows named t =
      let r =
        write_pending-Written (pending rows outbox) [] rows (pending-IsNamed outbox rows named) t
          (λ k c. absurd (ground arith)) in
      let all = all_pending outbox rows r.after r.keeps r.all in
      (
        r.number,
        r.after,
        r.result,
        all,
        r.trails,
        λ later. rw (none_pending outbox r.after all) refl,
      )
