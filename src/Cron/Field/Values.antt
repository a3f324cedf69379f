-- ===== src/Cron/Field/Values.antt =====
-- The values of a cron field (scheduler.py, `_parse_cron_field`).
use mathlib.Core.List.{Memᴰ}
use bit_cadence.Prelude.{
  Result-cases, err, ok, require, ◌>>=◌, ◌>>◌, ℕ, zero, suc, ◌+◌, ◌-◌, ◌*◌, ◌≤◌, ◌<◌, ◌≡◌, ◌≢◌,
  refl, sym, subst, ◌∙◌, Bool, true, false, ◌&&◌, not, ltb, ◌==◌, Option, none, some, List, [], ◌∷◌,
  ◌++◌, arith, All, Bool-cases, inl, inr,
}
use bit_cadence.Cron.Field.{
  Text, Result, CronError, range_from, ends, spread, parse_part, parse_parts, parse_stepped,
  parse_pieces, parse_cron_field, split, partition, strip, is_empty, is_number, number_from,
  or_star, join_first,
}

step_of_mem :
    (start step end v : ℕ) (rest : List ℕ)
    → start ≤ end
    → (Memᴰ v rest → (i : ℕ) × (v ≡ start + step + i * step) × (v ≤ end))
    → Memᴰ v (start ∷ rest)
    → (i : ℕ) × (v ≡ start + i * step) × (v ≤ end)
step_of_mem start step end v rest le later (Memᴰ.head e) = (0, omega arith, omega arith)
step_of_mem start step end v rest le later (Memᴰ.tail m) =
    let (i, e, h) = later m in (suc i, omega arith, h)

mem_of_step :
    (start step end v : ℕ) (rest : List ℕ)
    → ((i : ℕ) → v ≡ start + step + i * step → v ≤ end → Memᴰ v rest)
    → (i : ℕ) → v ≡ start + i * step
    → v ≤ end
    → Memᴰ v (start ∷ rest)
mem_of_step start step end v rest later zero e h = Memᴰ.head (omega arith)
mem_of_step start step end v rest later (suc i) e h = Memᴰ.tail (later i (omega arith) h)

-- `range(start, end + 1, step)` holds the steps from `start` that do not pass `end`, and nothing else,
-- if there is room for all of them.
pub mem-range_from :
    (n start end step v : ℕ)
    → 1 ≤ step
    → end < start + n
    → (Memᴰ v (range_from n start end step) → (i : ℕ) × (v ≡ start + i * step) × (v ≤ end))
      × ((i : ℕ) → v ≡ start + i * step → v ≤ end → Memᴰ v (range_from n start end step))
unfolding range_from
mem-range_from zero start end step v h room = (λ m. elim m [ ], λ i e le. absurd (omega arith))
mem-range_from (suc n) start end step v h room = elim (Bool-cases (ltb end start)) [
  | inl done ↦ rw done (λ m. elim m [ ], λ i e le. absurd (ground arith))
  | inr more ↦
      let (fore, back) = mem-range_from n (start + step) end step v h (omega arith) in
      rw more (
        step_of_mem start step end v (range_from n (start + step) end step) (ground arith) fore,
        mem_of_step start step end v (range_from n (start + step) end step) back,
      )
]

abbrev pub InRange : ℕ → ℕ → List ℕ → Type 0
InRange low high = All (λ v. (low ≤ v) × (v ≤ high))

range_from-InRange :
    (low high n start end step : ℕ)
    → low ≤ start
    → end ≤ high
    → InRange low high (range_from n start end step)
unfolding range_from
range_from-InRange low high zero start end step l h = tt
range_from-InRange low high (suc n) start end step l h = elim (Bool-cases (ltb end start)) [
  | inl done ↦ rw done tt
  | inr more ↦ rw more (
    (omega arith, ground arith),
    range_from-InRange low high n (start + step) end step (omega arith) h,
  )
]

InRange-append :
    (low high : ℕ) (xs ys : List ℕ)
    → InRange low high xs
    → InRange low high ys
    → InRange low high (xs ++ ys)
InRange-append low high [] ys a b = b
InRange-append low high (x ∷ xs) ys a b = (a.0, InRange-append low high xs ys a.1 b)

-- not empty, and in range
abbrev Good : ℕ → ℕ → List ℕ → Type 0
Good low high vs = InRange low high vs × (vs ≢ [])

range_from-Good :
    (low high start end step : ℕ)
    → low ≤ start
    → end ≤ high
    → start ≤ end
    → Good low high (range_from (end + 1 - start) start end step)
unfolding range_from
range_from-Good low high start end step l h le = (
  range_from-InRange low high (end + 1 - start) start end step l h,
  let e : end + 1 - start ≡ suc (end - start) = omega arith in rw e (λ p. ground arith),
)

spread-Good :
    (low high step : ℕ) (part : Text) (vs : List ℕ)
    → spread low high step part ≡ ok vs
    → Good low high vs
unfolding spread
spread-Good low high step part vs h = elim (Result-cases (ends low high part)) [
  | inl ((start, end), e) ↦ ground (arith, range_from-Good low high start end step)
  | inr (x, e) ↦ absurd (ground arith)
]

require-eq-ok :
    {A : Type 0} (b : Bool) (x : CronError) (m : Result A) {a : A}
    → (require b x >> m) ≡ ok a
    → m ≡ ok a
require-eq-ok true x m h = h
require-eq-ok false x m h = absurd (ground arith)

bind-eq-ok :
    {A B : Type 0} (first : Result A) (next : A → Result B) {b : B}
    → (first >>= next) ≡ ok b
    → (a : A) × (ok a ≡ first) × (next a ≡ ok b)
bind-eq-ok (ok a) next h = (a, refl, h)
bind-eq-ok (err x) next h = absurd (ground arith)

parse_pieces-Good :
    (low high : ℕ) (part : Text) (o : Option (Text × Text)) (vs : List ℕ)
    → parse_pieces low high part o ≡ ok vs
    → Good low high vs
unfolding parse_pieces parse_stepped
parse_pieces-Good low high part none vs h = spread-Good low high 1 part vs h
parse_pieces-Good low high part (some (p, step)) vs h =
    spread-Good low high (number_from 0 step) (or_star p) vs (
      require-eq-ok (is_number step && not (ltb (number_from 0 step) 1)) CronError.bad_step
        (spread low high (number_from 0 step) (or_star p)) h)

parse_part-Good :
    (low high : ℕ) (part : Text) (vs : List ℕ) → parse_part low high part ≡ ok vs → Good low high vs
unfolding parse_part
parse_part-Good low high part vs h = parse_pieces-Good low high part (partition b'/' part) vs (
    require-eq-ok (not (is_empty part)) CronError.empty_value
      (parse_pieces low high part (partition b'/' part)) h)

ok-injective : {xs ys : List ℕ} → Path (Result (List ℕ)) (ok xs) (ok ys) → xs ≡ ys
ok-injective h = ground arith

append-ne-nil : (xs ys : List ℕ) → xs ≢ [] → xs ++ ys ≢ []
append-ne-nil [] ys h e = absurd (h refl)
append-ne-nil (x ∷ xs) ys h e = ground arith

join_first-ne-nil : (c : ℕ) (ts : List Text) → join_first c ts ≢ []
join_first-ne-nil c [] e = ground arith
join_first-ne-nil c (t ∷ ts) e = ground arith

split-ne-nil : (sep : ℕ) (s : Text) → split sep s ≢ []
split-ne-nil sep [] = λ e. ground arith
split-ne-nil sep (c ∷ s) = elim (Bool-cases (c == sep)) [
  | inl same ↦ rw same (λ e. ground arith)
  | inr other ↦ rw other (join_first-ne-nil c (split sep s))
]

parse_parts-InRange :
    (low high : ℕ) (parts : List Text) (vs : List ℕ)
    → parse_parts low high parts ≡ ok vs
    → InRange low high vs × (parts ≢ [] → vs ≢ [])
unfolding parse_parts
parse_parts-InRange low high [] vs h =
    (subst (InRange low high) (ok-injective h) tt, λ ne. absurd (ne refl))
parse_parts-InRange low high (part ∷ parts) vs h =
    let (here, e, k) =
      bind-eq-ok (parse_part low high (strip part))
        (λ here. parse_parts low high parts >>= λ rest. ok (here ++ rest)) h in
    let (rest, e', k') = bind-eq-ok (parse_parts low high parts) (λ rest. ok (here ++ rest)) k in
    let (inside, some_here) = parse_part-Good low high (strip part) here (sym e) in
    let (later, _) = parse_parts-InRange low high parts rest (sym e') in
    (
      subst (InRange low high) (ok-injective k') (InRange-append low high here rest inside later),
      λ _ p. append-ne-nil here rest some_here (ok-injective k' ∙ p),
    )

-- A field that parses has at least one value, and all of its values lie in the field's range.
pub parse_cron_field-InRange :
    (low high : ℕ) (spec : Text) (vs : List ℕ)
    → parse_cron_field low high spec ≡ ok vs
    → InRange low high vs × (vs ≢ [])
unfolding parse_cron_field
parse_cron_field-InRange low high spec vs h =
    let (inside, full) = parse_parts-InRange low high (split b',' spec) vs h in
    (inside, full (split-ne-nil b',' spec))
