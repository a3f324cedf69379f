-- ===== src/Cron/Field.antt =====
-- One cron field (src/mco/scheduler.py, `_parse_cron_field`).
pub mod Values
use bit_cadence.Prelude.{
  Result-cases, err, ok, require, ◌>>=◌, ◌>>◌, Raises, ℕ, zero, suc, ◌+◌, ◌-◌, ◌*◌, ◌%◌, ◌≤◌, ◌<◌,
  ◌≡◌, ◌≢◌, refl, Bool, true, false, ◌&&◌, ◌||◌, not, leb, ltb, ◌==◌, if◌then◌else◌, Option, none,
  some, List, [], ◌∷◌, ◌++◌, arith, All, Bool-cases, inl, inr, ◌⊎◌,
}
use native.Mathlib.Nat.{le_trans}

abbrev pub Text : Type 0
Text = List ℕ

-- what `str.strip` and `str.split` drop
abbrev pub is_space : ℕ → Bool
is_space c = c == 32 || leb 9 c && leb c 13 || leb 28 c && leb c 31

abbrev pub is_digit : ℕ → Bool
is_digit c = leb b'0' c && leb c b'9'

abbrev pub drop_spaces : Text → Text
drop_spaces [] = []
drop_spaces (c ∷ s) = let rest = drop_spaces s in if is_space c then rest else c ∷ s

abbrev pub keep_unless_blank : ℕ → Text → Text
keep_unless_blank c [] = if is_space c then [] else c ∷ []
keep_unless_blank c (d ∷ r) = c ∷ d ∷ r

abbrev pub trim_right : Text → Text
trim_right [] = []
trim_right (c ∷ s) = keep_unless_blank c (trim_right s)

-- text.strip()
abbrev pub strip : Text → Text
strip s = trim_right (drop_spaces s)

-- text.partition(sep), without the separator; `none` if it does not occur
abbrev pub partition : ℕ → Text → Option (Text × Text)
partition sep [] = none
partition sep (c ∷ s) =
    let rest = partition sep s in
    if c == sep then some ([], s) else elim rest [ none ↦ none | some (a, b) ↦ some (c ∷ a, b) ]

abbrev pub join_first : ℕ → List Text → List Text
join_first c [] = (c ∷ []) ∷ []
join_first c (t ∷ ts) = (c ∷ t) ∷ ts

-- text.split(sep): never empty
abbrev pub split : ℕ → Text → List Text
split sep [] = [] ∷ []
split sep (c ∷ s) = let rest = split sep s in if c == sep then [] ∷ rest else join_first c rest

-- text.isdigit()
abbrev pub all_digits : Text → Bool
all_digits [] = true
all_digits (c ∷ s) = is_digit c && all_digits s

abbrev pub is_empty : Text → Bool
is_empty [] = true
is_empty (c ∷ s) = false

abbrev pub is_number : Text → Bool
is_number s = not (is_empty s) && all_digits s

abbrev pub number_from : ℕ → Text → ℕ
number_from n [] = n
number_from n (c ∷ s) = number_from (n * 10 + (c - b'0')) s

-- text.lstrip("-")
abbrev pub drop_dashes : Text → Text
drop_dashes [] = []
drop_dashes (c ∷ s) = let rest = drop_dashes s in if c == b'-' then rest else c ∷ s

abbrev pub has : ℕ → Text → Bool
has c [] = false
has c (d ∷ s) = d == c || has c s

abbrev pub same_text : Text → Text → Bool
same_text [] [] = true
same_text (a ∷ s) (b ∷ t) = a == b && same_text s t
same_text _ _ = false

pub data CronError : Type 0 where
  empty_value bad_step not_a_number out_of_range : CronError
  empty_expression unknown_shortcut field_count : CronError

abbrev pub Result : Type 0 → Type 0
Result A = Raises CronError A

-- `_cron_int`
unfoldable pub cron_int : Text → Result ℕ
cron_int text = do require (is_number (strip text)) not_a_number; ok (number_from 0 (strip text))

-- range(start, end + 1, step), as the values that are left for `n` more of them at most
unfoldable pub range_from : ℕ → ℕ → ℕ → ℕ → List ℕ
range_from zero start end step = []
range_from (suc n) start end step =
    let rest = range_from n (start + step) end step in if ltb end start then [] else start ∷ rest

-- the ends of a part whose step has been taken off
unfoldable pub ends : ℕ → ℕ → Text → Result (ℕ × ℕ)
unfolding cron_int
ends low high part =
    let pieces = partition b'-' part in
    if same_text part (b'*' ∷ [])
    then ok (low, high)
    else if has b'-' (drop_dashes part)
    then elim pieces [
      | none ↦ err not_a_number
      | some (a, b) ↦ (do start ← cron_int a; end ← cron_int b; ok (start, end))
    ]
    else (do n ← cron_int part; ok (n, n))

-- the values of a part
unfoldable pub spread : ℕ → ℕ → ℕ → Text → Result (List ℕ)
unfolding ends range_from
spread low high step part = do
  (start, end) ← ends low high part
  require (not (ltb start low || ltb high end || ltb end start)) out_of_range
  ok (range_from (end + 1 - start) start end step)

abbrev pub or_star : Text → Text
or_star [] = b'*' ∷ []
or_star (c ∷ s) = c ∷ s

unfoldable pub parse_stepped : ℕ → ℕ → Text → Text → Result (List ℕ)
unfolding spread
parse_stepped low high part step = do
  require (is_number step && not (ltb (number_from 0 step) 1)) bad_step
  spread low high (number_from 0 step) (or_star part)

unfoldable pub parse_pieces : ℕ → ℕ → Text → Option (Text × Text) → Result (List ℕ)
unfolding parse_stepped spread
parse_pieces low high part none = spread low high 1 part
parse_pieces low high part (some (p, step)) = parse_stepped low high p step

unfoldable pub parse_part : ℕ → ℕ → Text → Result (List ℕ)
unfolding parse_pieces
parse_part low high part = do
  require (not (is_empty part)) empty_value
  parse_pieces low high part (partition b'/' part)

unfoldable pub parse_parts : ℕ → ℕ → List Text → Result (List ℕ)
unfolding parse_part
parse_parts low high [] = ok []
parse_parts low high (part ∷ parts) = do
  here ← parse_part low high (strip part)
  rest ← parse_parts low high parts
  ok (here ++ rest)

-- `_parse_cron_field`; no part is empty of values, so the last test of the source never fails
unfoldable pub parse_cron_field : ℕ → ℕ → Text → Result (List ℕ)
unfolding parse_parts
parse_cron_field low high spec = parse_parts low high (split b',' spec)
