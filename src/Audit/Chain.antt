-- ===== src/Audit/Chain.antt =====
-- What a chain of audit rows is, and that `verify_chain` accepts one
-- (src/mco/orchestrator/audit.py).
use bit_cadence.Prelude.{
  ℕ, suc, ◌<◌, ◌≡◌, refl, String, true, false, Option, none, some, List, [], ◌∷◌, ◌++◌, arith,
  get_or, str_eq, eq_iff, eq_refl, leb, subst, sym, ◌∙◌,
}
use bit_cadence.Audit.{
  Content, Row, Outside, with_time, last_or, hash_of, material, canonical_timestamp, content_of,
  compute_hash, sign, place, by_time,
}
use bit_cadence.Audit.Verify.{has_signature, row_fault, walk}

-- What the code relies on: times are read as they are written and in their order, and no digest is empty.
pub record IsSound {D : Type 0} (o : Outside D) : Type 0 where
  pub reads : (t : ℕ) → o.instant (o.micro t) ≡ some t
  pub ordered : (s t : ℕ) → o.text_le (o.micro s) (o.micro t) ≡ leb s t
  pub filled : (key text : String) → str_eq (o.hmac key text) "" ≡ false

module _ {D : Type 0} (o : Outside D) (key : Option String) where
  -- the time of a row is past that of the row before
  abbrev pub Later : Option (Row D) → ℕ → Type 0
  Later none t = Unit {0}
  Later (some p) t = (s : ℕ) × (p.content.created_at ≡ o.micro s) × (s < t)

  -- The row links to the one before, with the hash and the signature that it should have.
  pub record IsLink (p : Option (Row D)) (r : Row D) : Type 0 where
    pub time : ℕ
    pub stamped : r.content.created_at ≡ o.micro time
    pub later : Later p time
    pub linked : r.prev_hash ≡ hash_of p
    pub hashed : compute_hash o (hash_of p) r.content ≡ some r.hash
    pub signed : r.signature ≡ get_or "" (sign o r.hash key)

  abbrev pub IsChain : Option (Row D) → List (Row D) → Type 0
  IsChain p [] = Unit {0}
  IsChain p (r ∷ rs) = IsLink p r × IsChain (some r) rs

  pub IsChain-append :
      (p : Option (Row D)) (rs : List (Row D)) (r : Row D)
      → IsChain p rs
      → IsLink (last_or p rs) r
      → IsChain p (rs ++ (r ∷ []))
  unfolding last_or
  IsChain-append p [] r c l = (l, tt)
  IsChain-append p (q ∷ rs) r (k, c) l = (k, IsChain-append (some q) rs r c l)

  -- A row's time can be read.
  abbrev pub Timed : Option (Row D) → Type 0
  Timed none = Unit {0}
  Timed (some p) = (s : ℕ) × (p.content.created_at ≡ o.micro s)

  pub last_or-Timed :
      (p : Option (Row D)) (rs : List (Row D)) → Timed p → IsChain p rs → Timed (last_or p rs)
  unfolding last_or
  last_or-Timed p [] t c = t
  last_or-Timed p (r ∷ rs) t (l, c) = last_or-Timed (some r) rs (l.time, l.stamped) c

-- `_resolve_audit_hmac_key` gives no empty key.
abbrev pub Filled : Option String → Type 0
Filled none = Unit {0}
Filled (some k) = str_eq k "" ≡ false

signed_row :
    {D : Type 0} (o : Outside D) (key : Option String) (sound : IsSound o) (r : Row D)
    → Filled key
    → r.signature ≡ get_or "" (sign o r.hash key)
    → has_signature o key r ≡ true
unfolding has_signature sign
signed_row o none sound r f h = refl
signed_row o (some k) sound r f h =
    ground (arith, h, sound.filled k r.hash, eq_refl (o.hmac k r.hash))

module _ {D : Type 0} (o : Outside D) (key : Option String) (sound : IsSound o) where
  place-first :
      (p : Option (Row D)) (r : Row D) (rs : List (Row D))
      → IsChain o key p (r ∷ rs)
      → place o r rs ≡ r ∷ rs
  unfolding place
  place-first p r [] c = refl
  place-first p r (q ∷ rs) (l, (k, c)) =
      let (s, at, before) = k.later in
      let le : o.text_le (o.micro s) (o.micro k.time) ≡ true =
        ground (arith, sound.ordered s k.time) in
      let here : o.text_le r.content.created_at q.content.created_at ≡ true =
        subst (λ x. o.text_le x q.content.created_at ≡ true) (sym at)
          (subst (λ x. o.text_le (o.micro s) x ≡ true) (sym k.stamped) le) in
      rw here refl

  -- A chain is in the order of its times.
  pub by_time-IsChain :
      (p : Option (Row D)) (rs : List (Row D)) → IsChain o key p rs → by_time o rs ≡ rs
  unfolding by_time
  by_time-IsChain p [] c = refl
  by_time-IsChain p (r ∷ rs) (l, c) = rw (by_time-IsChain (some r) rs c) (place-first p r rs (l, c))

  pub read_time :
      (c : Content D) (t : ℕ)
      → c.created_at ≡ o.micro t
      → canonical_timestamp o c.created_at ≡ some (o.micro t)
  unfolding canonical_timestamp
  read_time c t h =
      let read : o.instant c.created_at ≡ some t =
        subst (λ x. o.instant x ≡ some t) (sym h) (sound.reads t) in
      rw (read, canonical_timestamp) refl

  pub computed :
      (prev : String) (c : Content D) (t : ℕ)
      → c.created_at ≡ o.micro t
      → compute_hash o prev c
        ≡ some (o.sha256 (material prev (o.canonical (with_time c (o.micro t)))))
  unfolding compute_hash
  computed prev c t h = rw (read_time c t h, compute_hash) refl

  content_of-IsLink :
      (p : Option (Row D)) (r : Row D)
      → (l : IsLink o key p r) → content_of o r ≡ some (with_time r.content (o.micro l.time))
  unfolding content_of
  content_of-IsLink p r l = rw (read_time r.content l.time l.stamped, content_of) refl

  -- The canonical time is that of the row, and so the hash is its hash.
  hashed_again :
      (p : Option (Row D)) (r : Row D)
      → (l : IsLink o key p r)
      → compute_hash o r.prev_hash (with_time r.content (o.micro l.time)) ≡ some r.hash
  hashed_again p r l =
      let first : compute_hash o r.prev_hash r.content ≡ some r.hash =
        subst (λ x. compute_hash o x r.content ≡ some r.hash) (sym l.linked) l.hashed in
      computed r.prev_hash (with_time r.content (o.micro l.time)) l.time refl
      ∙ sym (computed r.prev_hash r.content l.time l.stamped)
      ∙ first

  has_signature-IsLink :
      (p : Option (Row D)) (r : Row D)
      → Filled key
      → IsLink o key p r
      → has_signature o key r ≡ true
  has_signature-IsLink p r f l = signed_row o key sound r f l.signed

  row_fault-IsLink :
      (p : Option (Row D)) (r : Row D)
      → Filled key
      → IsLink o key p r
      → row_fault o key (hash_of p) r ≡ none
  unfolding row_fault
  row_fault-IsLink p r f l = ground (
    arith,
    eq_iff r.prev_hash (hash_of p),
    l.linked,
    content_of-IsLink p r l,
    hashed_again p r l,
    eq_refl r.hash,
    has_signature-IsLink p r f l,
  )

  -- The loop of verify_chain finds nothing in a chain.
  pub walk-IsChain :
      (p : Option (Row D)) (rs : List (Row D)) (n : ℕ)
      → Filled key
      → IsChain o key p rs
      → walk o key n (hash_of p) rs ≡ none
  unfolding walk
  walk-IsChain p [] n f c = refl
  walk-IsChain p (r ∷ rs) n f (l, c) =
      rw (row_fault-IsLink p r f l, walk) (walk-IsChain (some r) rs (suc n) f c)
