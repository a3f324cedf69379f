-- ===== src/Audit/Tamper.antt =====
-- What an audit trail that is still accepted cannot have had changed
-- (src/mco/orchestrator/audit.py, `verify_chain`).
use Prim.Native.String.{count}
use text.Mathlib.TextLemmas.{append_inj, append_cancel_left}
use bit_cadence.Prelude.{
  ℕ, suc, ◌%◌, ◌≡◌, refl, String, true, false, Option, none, some, List, [], ◌∷◌, length, arith,
  str_eq, eq_iff, ◌==◌, Bool-cases, inl, inr, subst, sym, ◌∙◌, Option-cases, ◌⊎◌,
}
use bit_cadence.Audit.Chain.{IsSound, computed}
use bit_cadence.Audit.{
  Content, Row, Outside, with_time, material, canonical_timestamp, content_of, compute_hash,
  is_hash,
}
use bit_cadence.Audit.Verify.{legacy_hash, row_fault, walk}

is_hash-some : (x : Option String) (h y : String) → is_hash x h ≡ true → x ≡ some y → h ≡ y
is_hash-some none h y e f = absurd (ground arith)
is_hash-some (some x) h y e f = ground (arith, eq_iff x h)

same_material :
    (p q a b : String) → count p ≡ count q → material p a ≡ material q b → (p ≡ q) × (a ≡ b)
same_material p q a b n h = let (e, f) = append_inj h n in (e, append_cancel_left "\n" a b f)

-- the hash that the next row links to
unfoldable pub head_hash : {D : Type 0} → String → List (Row D) → String
head_hash expected [] = expected
head_hash expected (r ∷ rs) = head_hash r.hash rs

module _ {D : Type 0} (o : Outside D) where
  -- The text is what the hash of the row is made of: its content, with its time in one of two forms.
  abbrev pub Covers : Row D → String → Type 0
  Covers r text =
      (t : ℕ) × (o.instant r.content.created_at ≡ some t)
      × ((text ≡ o.canonical (with_time r.content (o.micro t)))
          ⊎ (text ≡ o.canonical (with_time r.content (o.seconds t))))

  -- Row by row, one text covers both.
  abbrev pub Alike : List (Row D) → List (Row D) → Type 0
  Alike [] [] = Unit {0}
  Alike (x ∷ xs) (y ∷ ys) = ((text : String) × Covers x text × Covers y text) × Alike xs ys
  Alike _ _ = ⊥

  -- Two rows with one hash that is the digest of two different texts, one that covers each row.
  pub record ClashAt (x y : Row D) : Type 0 where
    pub first_link : String
    pub first_text : String
    pub second_link : String
    pub second_text : String
    pub first_covers : Covers x first_text
    pub second_covers : Covers y second_text
    pub first_hash : x.hash ≡ o.sha256 (material first_link first_text)
    pub second_hash : y.hash ≡ o.sha256 (material second_link second_text)
    pub one_hash : x.hash ≡ y.hash
    pub different :
        str_eq (material first_link first_text) (material second_link second_text) ≡ false

  -- At some place the two trails have such rows.
  abbrev pub Clash : List (Row D) → List (Row D) → Type 0
  Clash (x ∷ xs) (y ∷ ys) = ClashAt x y ⊎ Clash xs ys
  Clash _ _ = ⊥

  unread : (r : Row D) → o.instant r.content.created_at ≡ none → content_of o r ≡ none
  unfolding content_of canonical_timestamp
  unread r h = rw (h, content_of, canonical_timestamp) refl

  read_row :
      (r : Row D) (t : ℕ)
      → o.instant r.content.created_at ≡ some t
      → content_of o r ≡ some (with_time r.content (o.micro t))
  unfolding content_of canonical_timestamp
  read_row r t h = rw (h, content_of, canonical_timestamp) refl

  -- What the checks of a row have found where they find no fault.
  passed :
      (key : Option String) (expected : String) (r : Row D) (c : Content D)
      → content_of o r ≡ some c
      → row_fault o key expected r ≡ none
      → (r.prev_hash ≡ expected)
        × ((is_hash (compute_hash o r.prev_hash c) r.hash ≡ true)
            ⊎ (is_hash (legacy_hash o r.prev_hash r) r.hash ≡ true))
  unfolding row_fault
  passed key expected r c e h = (
    ground (arith, eq_iff r.prev_hash expected),
    elim (Bool-cases (is_hash (compute_hash o r.prev_hash c) r.hash)) [
      | inl now ↦ inl now
      | inr before ↦ inr (ground (arith, e, h, before))
    ],
  )

  legacy_value :
      (r : Row D) (t : ℕ) (prev : String)
      → o.instant r.content.created_at ≡ some t
      → ((t % 1000000) == 0) ≡ true
      → legacy_hash o prev r
        ≡ some (o.sha256 (material prev (o.canonical (with_time r.content (o.seconds t)))))
  unfolding legacy_hash
  legacy_value r t prev e whole = rw (e, legacy_hash, whole) refl

  legacy_none :
      (r : Row D) (t : ℕ) (prev : String)
      → o.instant r.content.created_at ≡ some t
      → ((t % 1000000) == 0) ≡ false
      → legacy_hash o prev r ≡ none
  unfolding legacy_hash
  legacy_none r t prev e parts = rw (e, legacy_hash, parts) refl

  legacy_text :
      (r : Row D) (t : ℕ) (prev : String)
      → o.instant r.content.created_at ≡ some t
      → is_hash (legacy_hash o prev r) r.hash ≡ true
      → r.hash ≡ o.sha256 (material prev (o.canonical (with_time r.content (o.seconds t))))
  legacy_text r t prev e h = elim (Bool-cases ((t % 1000000) == 0)) [
    | inl whole ↦ is_hash-some (legacy_hash o prev r) r.hash _ h (legacy_value r t prev e whole)
    | inr parts ↦ absurd (ground (arith, legacy_none r t prev e parts))
  ]

  -- No fault in a trail: none in its first row, nor in the others.
  pub walk-first :
      (key : Option String) (n : ℕ) (expected : String) (r : Row D) (rs : List (Row D))
      → walk o key n expected (r ∷ rs) ≡ none
      → (row_fault o key expected r ≡ none) × (walk o key (suc n) r.hash rs ≡ none)
  unfolding walk
  walk-first key n expected r rs h = elim (Option-cases (row_fault o key expected r)) [
    | inl fine ↦ (fine, ground (arith, h, fine))
    | inr (reason, bad) ↦ absurd (ground (arith, h, bad))
  ]

  same_or_not : (a b : String) → (a ≡ b) ⊎ (str_eq a b ≡ false)
  same_or_not a b = elim (Bool-cases (str_eq a b)) [
    | inl same ↦ inl (ground (arith, eq_iff a b))
    | inr different ↦ inr different
  ]

module _ {D : Type 0} (o : Outside D) (sound : IsSound o) where
  -- A row without a fault has the digest of a text that covers it.
  row_fault-Covers :
      (key : Option String) (expected : String) (r : Row D)
      → row_fault o key expected r ≡ none
      → (text : String) × Covers o r text × (r.hash ≡ o.sha256 (material expected text))
  row_fault-Covers key expected r h = elim (Option-cases (o.instant r.content.created_at)) [
    | inl gone ↦ absurd (unfold row_fault in ground (arith, h, unread o r gone))
    | inr (t, e) ↦
        let (linked, hashed) =
          passed o key expected r (with_time r.content (o.micro t)) (read_row o r t e) h in
        elim hashed [
          | inl now ↦ (
            o.canonical (with_time r.content (o.micro t)),
            (t, e, inl refl),
            subst
                (λ x.
                  r.hash ≡ o.sha256 (material x (o.canonical (with_time r.content (o.micro t)))))
                linked
                (is_hash-some (compute_hash o r.prev_hash (with_time r.content (o.micro t))) r.hash
                  _ now
                  (computed o none sound r.prev_hash (with_time r.content (o.micro t)) t refl)),
          )
          | inr old ↦ (
            o.canonical (with_time r.content (o.seconds t)),
            (t, e, inr refl),
            subst
                (λ x.
                  r.hash ≡ o.sha256 (material x (o.canonical (with_time r.content (o.seconds t)))))
                linked (legacy_text o r t r.prev_hash e old),
          )
        ]
  ]

  -- Two trails of one length without a fault, and with one hash at the end.
  pub walk-Alike :
      (width : ℕ) (key : Option String) (n m : ℕ) (p q : String) (xs ys : List (Row D))
      → ((text : String) → count (o.sha256 text) ≡ width)
      → length xs ≡ length ys
      → count p ≡ count q
      → walk o key n p xs ≡ none
      → walk o key m q ys ≡ none
      → head_hash p xs ≡ head_hash q ys
      → (p ≡ q) × Alike o xs ys ⊎ Clash o xs ys
  unfolding head_hash
  walk-Alike width key n m p q [] [] w l c a b h = inl (h, tt)
  walk-Alike width key n m p q [] (y ∷ ys) w l c a b h = absurd (omega (arith, l))
  walk-Alike width key n m p q (x ∷ xs) [] w l c a b h = absurd (omega (arith, l))
  walk-Alike width key n m p q (x ∷ xs) (y ∷ ys) w l c a b h =
      let (fine, rest) = walk-first o key n p x xs a in
      let (good, others) = walk-first o key m q y ys b in
      let (s, covers, d) = row_fault-Covers key p x fine in
      let (t, covered, e) = row_fault-Covers key q y good in
      elim (walk-Alike width key (suc n) (suc m) x.hash y.hash xs ys w (omega (arith, l))
        (rw (d, e) (w (material p s) ∙ sym (w (material q t)))) rest others h) [
          | inr clash ↦ inr (inr clash)
          | inl (same, alike) ↦ elim (same_or_not o (material p s) (material q t)) [
            | inr different ↦ inr (
                inl (record {
                  first_link = p;
                  first_text = s;
                  second_link = q;
                  second_text = t;
                  first_covers = covers;
                  second_covers = covered;
                  first_hash = d;
                  second_hash = e;
                  one_hash = same;
                  different = different;
                }))
            | inl one ↦
                let (front, text) = same_material p q s t c one in
                inl (front, ((s, covers, subst (Covers o y) (sym text) covered), alike))
          ]
        ]
