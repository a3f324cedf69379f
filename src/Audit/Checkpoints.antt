-- ===== src/Audit/Checkpoints.antt =====
-- What a checkpoint that is kept outside of the database proves of a later trail
-- (src/mco/orchestrator/audit.py, `make_checkpoint` and `verify_chain`).
use Prim.Native.String.{count}
use bit_cadence.Prelude.{
  ℕ, zero, suc, ◌-◌, ◌<◌, ◌≤◌, ◌≡◌, refl, String, true, Option, none, some, List, [], ◌∷◌, length,
  arith, eq_iff, inl, inr, subst, sym, ◌∙◌, ap, Option-cases, ◌⊎◌,
}
use bit_cadence.Audit.{Row, Outside, Checkpoint, last_or, hash_of, row_at, get_events}
use bit_cadence.Audit.Verify.{
  walk, checkpoint_fault, verify_chain, make_checkpoint, checked_against,
}
use bit_cadence.Audit.Chain.{IsSound}
use bit_cadence.Audit.Tamper.{Alike, Clash, head_hash, walk-first, walk-Alike}

module _ {D : Type 0} where
  abbrev pub take : ℕ → List (Row D) → List (Row D)
  take n [] = []
  take zero (r ∷ rs) = []
  take (suc n) (r ∷ rs) = r ∷ take n rs

  take-none : (rs : List (Row D)) (n : ℕ) → n ≡ 0 → take n rs ≡ []
  take-none [] n h = refl
  take-none (r ∷ rs) zero h = refl
  take-none (r ∷ rs) (suc n) h = absurd (omega (arith, h))

  length-take : (n : ℕ) (rs : List (Row D)) → n ≤ length rs → length (take n rs) ≡ n
  length-take zero [] h = refl
  length-take (suc n) [] h = absurd (omega (arith, h))
  length-take zero (r ∷ rs) h = refl
  length-take (suc n) (r ∷ rs) h = ap suc (length-take n rs (omega (arith, h)))

  head_hash-last_or :
      (p : Option (Row D)) (rs : List (Row D)) → head_hash (hash_of p) rs ≡ hash_of (last_or p rs)
  unfolding last_or head_hash
  head_hash-last_or p [] = refl
  head_hash-last_or p (r ∷ rs) = head_hash-last_or (some r) rs

  head_hash-take :
      (n : ℕ) (s : String) (rs : List (Row D))
      → n < length rs
      → head_hash s (take (suc n) rs) ≡ hash_of (row_at n rs)
  unfolding head_hash
  head_hash-take n s [] h = absurd (omega (arith, h))
  head_hash-take zero s (r ∷ []) h = refl
  head_hash-take zero s (r ∷ (q ∷ rs)) h = refl
  head_hash-take (suc n) s (r ∷ rs) h = head_hash-take n r.hash rs (omega (arith, h))

module _ {D : Type 0} (o : Outside D) where
  walk-take :
      (key : Option String) (m : ℕ) (p : String) (n : ℕ) (rs : List (Row D))
      → walk o key m p rs ≡ none
      → walk o key m p (take n rs) ≡ none
  unfolding walk
  walk-take key m p n [] h = refl
  walk-take key m p zero (r ∷ rs) h = refl
  walk-take key m p (suc n) (r ∷ rs) h =
      let (fine, rest) = walk-first o key m p r rs h in
      rw (fine, walk) (walk-take key (suc m) r.hash n rs rest)

  -- What verify_chain has found where it reports no fault.
  verified :
      (key : Option String) (job : String) (cp : Option Checkpoint) (events : List (Row D))
      → (verify_chain o key job cp events).ok ≡ true
      → (walk o key 1 "" events ≡ none) × (checked_against o key job events cp ≡ none)
  unfolding verify_chain
  verified key job cp events h = elim (Option-cases (walk o key 1 "" events)) [
    | inr (fault, e) ↦ absurd (ground (arith, h, e))
    | inl fine ↦ elim (Option-cases (checked_against o key job events cp)) [
      | inr (why, e) ↦ absurd (ground (arith, h, fine, e))
      | inl good ↦ (fine, good)
    ]
  ]

  matched :
      (key : Option String) (job : String) (events : List (Row D)) (cp : Checkpoint)
      → checkpoint_fault o key job events cp ≡ none
      → (cp.head.count ≤ length events)
        × ((n : ℕ) → cp.head.count ≡ suc n → hash_of (row_at n events) ≡ cp.head.head_hash)
  unfolding checkpoint_fault
  matched key job events cp h = (
    ground (arith, h),
    λ n e.
        ground
          (arith, h, e, eq_iff (hash_of (row_at (cp.head.count - 1) events)) cp.head.head_hash),
  )

module _ {D : Type 0} (o : Outside D) (sound : IsSound o) where
  made :
      (key : Option String) (job : String) (rows : List (Row D)) (cp : Checkpoint)
      → make_checkpoint o key job rows ≡ some cp
      → (cp.head.count ≡ length (get_events o job rows))
        × (cp.head.head_hash ≡ hash_of (last_or none (get_events o job rows)))
  unfolding make_checkpoint
  made key job rows cp h = ground (arith, h)

  -- A trail with a checkpoint's length and head, and a later one that has them too.
  head-Alike :
      (width : ℕ) (key : Option String) (olds news : List (Row D)) (n : ℕ)
      → ((text : String) → count (o.sha256 text) ≡ width)
      → n ≡ length olds
      → n ≤ length news
      → ((k : ℕ) → n ≡ suc k → hash_of (row_at k news) ≡ hash_of (last_or none olds))
      → walk o key 1 "" olds ≡ none
      → walk o key 1 "" news ≡ none
      → Alike o olds (take n news) ⊎ Clash o olds (take n news)
  head-Alike width key [] news n w same enough last a b =
      inl (subst (Alike o []) (sym (take-none news n same)) tt)
  head-Alike width key (x ∷ xs) news n w same enough last a b =
      let k = length xs in
      let whole : length (take (suc k) news) ≡ suc k =
        length-take (suc k) news (omega (arith, same, enough)) in
      let ends : head_hash "" (take (suc k) news) ≡ head_hash "" (x ∷ xs) =
        head_hash-take k "" news (omega (arith, same, enough))
        ∙ last k same
        ∙ sym (head_hash-last_or none (x ∷ xs)) in
      elim (walk-Alike o sound width key 1 1 "" "" (x ∷ xs) (take (suc k) news) w (sym whole) refl a
        (walk-take o key 1 "" (suc k) news b) (sym ends)) [
          | inl (start, alike) ↦ inl (subst (λ m. Alike o (x ∷ xs) (take m news)) (sym same) alike)
          | inr clash ↦ inr (subst (λ m. Clash o (x ∷ xs) (take m news)) (sym same) clash)
        ]

  -- Take a checkpoint of a job's trail that verify_chain accepts, and keep it outside of the database.
  -- When verify_chain later accepts the job's trail with that checkpoint, every row of the first trail
  -- stands at its place in the later one with the very text that its hash covers; or at some place the
  -- two trails have rows with one hash that is the SHA-256 digest of two different texts, one that
  -- covers each row. The digests have one length, and times are read as they are written.
  pub verify_chain-unchanged :
      (width : ℕ) (key : Option String) (job : String) (rows news : List (Row D)) (cp : Checkpoint)
      → ((text : String) → count (o.sha256 text) ≡ width)
      → make_checkpoint o key job rows ≡ some cp
      → (verify_chain o key job none (get_events o job rows)).ok ≡ true
      → (verify_chain o key job (some cp) news).ok ≡ true
      → Alike o (get_events o job rows) (take cp.head.count news)
        ⊎ Clash o (get_events o job rows) (take cp.head.count news)
  verify_chain-unchanged width key job rows news cp w m before after =
      let (counted, headed) = made key job rows cp m in
      let (old, _) = verified o key job none (get_events o job rows) before in
      let (new, fits) = verified o key job (some cp) news after in
      let (enough, last) = matched o key job news cp fits in
      head-Alike width key (get_events o job rows) news cp.head.count w counted enough
        (λ k e. last k e ∙ headed) old new
