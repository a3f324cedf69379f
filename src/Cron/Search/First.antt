-- ===== src/Cron/Search/First.antt =====
-- The search finds the first match (scheduler.py, `next_cron_time`).
use bit_cadence.Prelude.{
  ℕ, zero, suc, ◌+◌, ◌≤◌, ◌<◌, ◌≡◌, ◌≢◌, refl, ap, subst, sym, ◌∙◌, true, false, none, some, arith,
  ltb, ◌==◌, Bool-cases, inl, inr, ◌⊎◌,
}
use bit_cadence.Cron.Search.{
  Calendar, CronExpr, Moment, day_minutes, max_search_minutes, index, date_could_match, matches,
  next_minute, next_midnight, over, skip, hit, miss, look, search, next_cron_time,
}

matches-date :
    (cal : Calendar) (e : CronExpr) (date clock : ℕ)
    → matches cal e date clock ≡ true
    → date_could_match cal e date ≡ true
unfolding matches date_could_match
matches-date cal e date clock h = ground arith

look-cases :
    (cal : Calendar) (e : CronExpr) (limit : ℕ) (m : Moment)
    → ((look cal e limit m ≡ over) × (limit ≤ index m))
      ⊎ ((look cal e limit m ≡ skip) × (date_could_match cal e m.date ≡ false))
      ⊎ ((look cal e limit m ≡ hit) × (matches cal e m.date m.clock ≡ true) × (index m < limit))
      ⊎ ((look cal e limit m ≡ miss) × (matches cal e m.date m.clock ≡ false))
unfolding look
look-cases cal e limit m = elim (Bool-cases (ltb (index m) limit)) [
  | inr late ↦ inl (rw late refl, ground arith)
  | inl early ↦ elim (Bool-cases (date_could_match cal e m.date)) [
    | inr never ↦ inr (inl (rw (early, never) refl, never))
    | inl could ↦ elim (Bool-cases (matches cal e m.date m.clock)) [
      | inl yes_hit ↦ inr (inr (inl (rw (early, could, yes_hit) refl, yes_hit, ground arith)))
      | inr no_hit ↦ inr (inr (inr (rw (early, could, no_hit) refl, no_hit)))
    ]
  ]
]

index-next_minute : (m : Moment) → index (next_minute m) ≡ index m + 1
unfolding next_minute
index-next_minute m = elim (Bool-cases (m.clock + 1 == day_minutes)) [
  | inl last ↦ rw last (ground arith)
  | inr other ↦ rw other (omega arith)
]

clock-next_minute : (m : Moment) → m.clock < 1440 → (next_minute m).clock < 1440
unfolding next_minute
clock-next_minute m h = ground arith

-- A match at or after a day without one is on a later day.
past_day :
    (cal : Calendar) (e : CronExpr) (m t : Moment)
    → m.clock < 1440
    → t.clock < 1440
    → date_could_match cal e m.date ≡ false
    → matches cal e t.date t.clock ≡ true
    → index m ≤ index t
    → index (next_midnight m) ≤ index t
past_day cal e m t vm vt never h le =
    let could = matches-date cal e t.date t.clock h in
    elim (Bool-cases (t.date == m.date)) [
      | inl same ↦
          let d : t.date ≡ m.date = ground arith in
          absurd (ground (arith, sym (ap (date_could_match cal e) d) ∙ could))
      | inr other ↦ let d : m.date ≢ t.date = ground arith in omega arith
    ]

-- A match at or after a minute without one is in a later minute.
past_minute :
    (cal : Calendar) (e : CronExpr) (m t : Moment)
    → m.clock < 1440
    → t.clock < 1440
    → matches cal e m.date m.clock ≡ false
    → matches cal e t.date t.clock ≡ true
    → index m ≤ index t
    → index m + 1 ≤ index t
past_minute cal e m t vm vt misses h le = elim (Bool-cases (index t == index m)) [
  | inr other ↦ ground arith
  | inl same ↦
      let i : index t ≡ index m = ground arith in
      let d : t.date ≡ m.date = omega arith in
      let c : t.clock ≡ m.clock = omega arith in
      let there : matches cal e m.date m.clock ≡ true =
        sym (ap (λ x. matches cal e x t.clock) d ∙ ap (matches cal e m.date) c) ∙ h in
      absurd (ground arith)
]

module _ (n : ℕ) (cal : Calendar) (e : CronExpr) (limit : ℕ) (m : Moment) where
  found_over : look cal e limit m ≡ over → search (suc n) cal e limit m ≡ none
  unfolding search
  found_over l = rw (l, search) refl

  turn_skip :
      look cal e limit m ≡ skip
      → search (suc n) cal e limit m ≡ search n cal e limit (next_midnight m)
  unfolding search
  turn_skip l = rw (l, search) refl

  turn_hit : look cal e limit m ≡ hit → search (suc n) cal e limit m ≡ some m
  unfolding search
  turn_hit l = rw (l, search) refl

  turn_miss :
      look cal e limit m ≡ miss
      → search (suc n) cal e limit m ≡ search n cal e limit (next_minute m)
  unfolding search
  turn_miss l = rw (l, search) refl

-- Where the search succeeds: at a match, at or after the start and before the limit.
search-some :
    (n : ℕ) (cal : Calendar) (e : CronExpr) (limit : ℕ) (m t : Moment)
    → m.clock < 1440
    → search n cal e limit m ≡ some t
    → (index m ≤ index t) × (index t < limit) × (matches cal e t.date t.clock ≡ true)
unfolding search
search-some zero cal e limit m t vm s = absurd (ground arith)
search-some (suc n) cal e limit m t vm s = elim (look-cases cal e limit m) [
  | inl (l, _) ↦ absurd (ground (arith, sym s ∙ found_over n cal e limit m l))
  | inr (inl (l, _)) ↦
      let (a, b, c) =
        search-some n cal e limit (next_midnight m) t (omega arith)
          (sym (turn_skip n cal e limit m l) ∙ s) in
      (omega arith, b, c)
  | inr (inr (inl (l, h, early))) ↦
      let same : m ≡ t = ground (arith, sym (turn_hit n cal e limit m l) ∙ s) in
      subst (λ x. (index m ≤ index x) × (index x < limit) × (matches cal e x.date x.clock ≡ true))
        same (omega arith, early, h)
  | inr (inr (inr (l, _))) ↦
      let (a, b, c) =
        search-some n cal e limit (next_minute m) t (clock-next_minute m vm)
          (sym (turn_miss n cal e limit m l) ∙ s) in
      (omega (arith, index-next_minute m), b, c)
]

-- No match is passed over, and none lies before the limit where the search fails with enough fuel.
search-first :
    (n : ℕ) (cal : Calendar) (e : CronExpr) (limit : ℕ) (m t t' : Moment)
    → m.clock < 1440
    → t'.clock < 1440
    → matches cal e t'.date t'.clock ≡ true
    → index m ≤ index t'
    → search n cal e limit m ≡ some t
    → index t ≤ index t'
unfolding search
search-first zero cal e limit m t t' vm vt h le s = absurd (ground arith)
search-first (suc n) cal e limit m t t' vm vt h le s = elim (look-cases cal e limit m) [
  | inl (l, _) ↦ absurd (ground (arith, sym s ∙ found_over n cal e limit m l))
  | inr (inl (l, never)) ↦
      search-first n cal e limit (next_midnight m) t t' (omega arith) vt h
        (past_day cal e m t' vm vt never h le) (sym (turn_skip n cal e limit m l) ∙ s)
  | inr (inr (inl (l, _, _))) ↦
      let same : m ≡ t = ground (arith, sym (turn_hit n cal e limit m l) ∙ s) in
      subst (λ x. index x ≤ index t') same le
  | inr (inr (inr (l, misses))) ↦
      let past = past_minute cal e m t' vm vt misses h le in
      search-first n cal e limit (next_minute m) t t' (clock-next_minute m vm) vt h
        (omega (arith, index-next_minute m)) (sym (turn_miss n cal e limit m l) ∙ s)
]

search-none :
    (n : ℕ) (cal : Calendar) (e : CronExpr) (limit : ℕ) (m t' : Moment)
    → m.clock < 1440
    → t'.clock < 1440
    → limit ≤ index m + n
    → matches cal e t'.date t'.clock ≡ true
    → index m ≤ index t'
    → search n cal e limit m ≡ none
    → limit ≤ index t'
unfolding search
search-none zero cal e limit m t' vm vt room h le s = omega arith
search-none (suc n) cal e limit m t' vm vt room h le s = elim (look-cases cal e limit m) [
  | inl (_, late) ↦ omega arith
  | inr (inl (l, never)) ↦
      search-none n cal e limit (next_midnight m) t' (omega arith) vt (omega arith) h
        (past_day cal e m t' vm vt never h le) (sym (turn_skip n cal e limit m l) ∙ s)
  | inr (inr (inl (l, _, _))) ↦ absurd (ground (arith, sym (turn_hit n cal e limit m l) ∙ s))
  | inr (inr (inr (l, misses))) ↦
      let past = past_minute cal e m t' vm vt misses h le in
      search-none n cal e limit (next_minute m) t' (clock-next_minute m vm) vt
        (omega (arith, index-next_minute m)) h (omega (arith, index-next_minute m))
        (sym (turn_miss n cal e limit m l) ∙ s)
]

-- The time that is found matches, lies after `after` and within the window of five years, and is the first:
-- any other match after `after` is no earlier.
pub next_cron_time-first :
    (cal : Calendar) (e : CronExpr) (after t t' : Moment)
    → after.clock < 1440
    → t'.clock < 1440
    → next_cron_time cal e after ≡ some t
    → matches cal e t'.date t'.clock ≡ true
    → index after < index t'
    → (matches cal e t.date t.clock ≡ true)
      × (index after < index t)
      × (index t ≤ index after + max_search_minutes)
      × (index t ≤ index t')
unfolding next_cron_time
next_cron_time-first cal e after t t' va vt s h le =
    let i = index-next_minute after in
    let v = clock-next_minute after va in
    let limit : ℕ = index (next_minute after) + max_search_minutes in
    let (a, b, c) = search-some max_search_minutes cal e limit (next_minute after) t v s in
    (
      c,
      omega arith,
      omega arith,
      search-first max_search_minutes cal e limit (next_minute after) t t' v vt h (omega arith) s,
    )

-- The search fails only if there is no match in the window: the bound on its turns is never met first.
pub next_cron_time-none :
    (cal : Calendar) (e : CronExpr) (after t : Moment)
    → after.clock < 1440
    → t.clock < 1440
    → next_cron_time cal e after ≡ none
    → matches cal e t.date t.clock ≡ true
    → index after < index t
    → index after + max_search_minutes < index t
unfolding next_cron_time
next_cron_time-none cal e after t va vt s h le =
    let i = index-next_minute after in
    let limit : ℕ = index (next_minute after) + max_search_minutes in
    let past =
      search-none max_search_minutes cal e limit (next_minute after) t (clock-next_minute after va)
        vt (omega arith) h (omega arith) s in
    omega arith
