-- ===== src/Arbiter/Queue.antt =====
-- The waiting queue: order, and one entry for each owner (resource_arbiter.py, `acquire`).
use bit_cadence.Prelude.{
  ℕ, ◌+◌, ◌≡◌, ◌∙◌, refl, String, true, false, some, List, [], ◌∷◌, ◌++◌, arith, str_eq, eq_iff,
  eq_refl, All, ℤ, pos, negsuc, leb_ℤ, Bool-cases, inl, inr, if◌then◌else◌,
}
use bit_cadence.Arbiter.Resource.{Waiter, ahead, put_in, sort_queue}
use bit_cadence.Arbiter.Operations.{Request, waits, refresh, joined, enqueue, position}

-- nobody of that name is in the queue
abbrev pub Absent : String → List Waiter → Type 0
Absent o = All (λ w. str_eq w.owner o ≡ false)

abbrev pub Distinct : List Waiter → Type 0
Distinct [] = Unit {0}
Distinct (w ∷ ws) = Absent w.owner ws × Distinct ws

-- by falling priority, and by request time among equals
abbrev pub Sorted : List Waiter → Type 0
Sorted [] = Unit {0}
Sorted (w ∷ ws) = All (λ v. ahead w v ≡ true) ws × Sorted ws

leb_ℤ_total : (a b : ℤ) → leb_ℤ a b ≡ false → leb_ℤ b a ≡ true
leb_ℤ_total (pos a) (pos b) h = ground arith
leb_ℤ_total (pos a) (negsuc b) h = refl
leb_ℤ_total (negsuc a) (pos b) h = ground arith
leb_ℤ_total (negsuc a) (negsuc b) h = ground arith

leb_ℤ_trans : (a b c : ℤ) → leb_ℤ a b ≡ true → leb_ℤ b c ≡ true → leb_ℤ a c ≡ true
leb_ℤ_trans (pos a) (pos b) (pos c) h k = ground arith
leb_ℤ_trans (negsuc a) b (pos c) h k = refl
leb_ℤ_trans (negsuc a) (negsuc b) (negsuc c) h k = ground arith
leb_ℤ_trans (pos a) (negsuc b) c h k = absurd (ground arith)
leb_ℤ_trans (pos a) (pos b) (negsuc c) h k = absurd (ground arith)
leb_ℤ_trans (negsuc a) (pos b) (negsuc c) h k = absurd (ground arith)

ahead_total : (a b : Waiter) → ahead a b ≡ false → ahead b a ≡ true
ahead_total a b h =
    ground (arith, leb_ℤ_total a.priority b.priority, leb_ℤ_total b.priority a.priority)

ahead_trans : (a b c : Waiter) → ahead a b ≡ true → ahead b c ≡ true → ahead a c ≡ true
ahead_trans a b c h k = ground (
  arith,
  leb_ℤ_trans c.priority b.priority a.priority,
  leb_ℤ_trans a.priority b.priority c.priority,
  leb_ℤ_trans a.priority c.priority b.priority,
  leb_ℤ_trans b.priority c.priority a.priority,
  leb_ℤ_trans b.priority a.priority c.priority,
  leb_ℤ_trans c.priority a.priority b.priority,
)

module _ {ℓ} (P : Waiter → Type ℓ) where
  put_in-All : (w : Waiter) (ws : List Waiter) → P w → All P ws → All P (put_in w ws)
  put_in-All w [] p h = (p, tt)
  put_in-All w (v ∷ vs) p h = elim (Bool-cases (ahead w v)) [
    | inl first ↦ rw first (p, h)
    | inr after ↦ rw after (h.0, put_in-All w vs p h.1)
  ]

  pub sort_queue-All : (ws : List Waiter) → All P ws → All P (sort_queue ws)
  unfolding sort_queue
  sort_queue-All [] h = tt
  sort_queue-All (w ∷ ws) h = put_in-All w (sort_queue ws) h.0 (sort_queue-All ws h.1)

All-mono {ℓ κ} :
    {P : Waiter → Type ℓ} {Q : Waiter → Type κ} (ws : List Waiter)
    → ((w : Waiter) → P w → Q w)
    → All P ws
    → All Q ws
All-mono [] f h = tt
All-mono (w ∷ ws) f h = (f w h.0, All-mono ws f h.1)

put_in-Sorted : (w : Waiter) (ws : List Waiter) → Sorted ws → Sorted (put_in w ws)
put_in-Sorted w [] h = (tt, tt)
put_in-Sorted w (v ∷ vs) h = elim (Bool-cases (ahead w v)) [
  | inl first ↦ rw first ((first, All-mono vs (λ x. ahead_trans w v x first) h.0), h)
  | inr after ↦
      rw after (
        put_in-All (λ x. ahead v x ≡ true) w vs (ahead_total w v after) h.0,
        put_in-Sorted w vs h.1,
      )
]

-- Sorting puts the queue in order.
pub sort_queue-Sorted : (ws : List Waiter) → Sorted (sort_queue ws)
unfolding sort_queue
sort_queue-Sorted [] = tt
sort_queue-Sorted (w ∷ ws) = put_in-Sorted w (sort_queue ws) (sort_queue-Sorted ws)

pub differ_sym : (s t : String) → str_eq s t ≡ false → str_eq t s ≡ false
differ_sym s t h = ground (arith, eq_iff s t, eq_iff t s)

put_in-Distinct :
    (w : Waiter) (ws : List Waiter) → Absent w.owner ws → Distinct ws → Distinct (put_in w ws)
put_in-Distinct w [] a d = (tt, tt)
put_in-Distinct w (v ∷ vs) a d = elim (Bool-cases (ahead w v)) [
  | inl first ↦ rw first (a, d)
  | inr after ↦ rw after (
    put_in-All (λ x. str_eq x.owner v.owner ≡ false) w vs (differ_sym v.owner w.owner a.0) d.0,
    put_in-Distinct w vs a.1 d.1,
  )
]

pub sort_queue-Distinct : (ws : List Waiter) → Distinct ws → Distinct (sort_queue ws)
unfolding sort_queue
sort_queue-Distinct [] d = tt
sort_queue-Distinct (w ∷ ws) d =
    put_in-Distinct w (sort_queue ws) (sort_queue-All (λ x. str_eq x.owner w.owner ≡ false) ws d.0)
      (sort_queue-Distinct ws d.1)

pub waits-Absent : (o : String) (ws : List Waiter) → waits o ws ≡ false → Absent o ws
unfolding waits
waits-Absent o [] h = tt
waits-Absent o (w ∷ ws) h = elim (Bool-cases (str_eq w.owner o)) [
  | inl hit ↦ absurd (ground arith)
  | inr miss ↦ (miss, waits-Absent o ws (ground arith))
]

-- a refreshed entry keeps its owner
refresh-Absent :
    (q : Request) (o : String) (ws : List Waiter) → Absent o ws → Absent o (refresh q ws)
unfolding refresh
refresh-Absent q o [] a = tt
refresh-Absent q o (w ∷ ws) a = elim (Bool-cases (str_eq w.owner q.owner)) [
  | inl hit ↦ rw hit a
  | inr miss ↦ rw miss (a.0, refresh-Absent q o ws a.1)
]

refresh-Distinct : (q : Request) (ws : List Waiter) → Distinct ws → Distinct (refresh q ws)
unfolding refresh
refresh-Distinct q [] d = tt
refresh-Distinct q (w ∷ ws) d = elim (Bool-cases (str_eq w.owner q.owner)) [
  | inl hit ↦ rw hit d
  | inr miss ↦ rw miss (refresh-Absent q w.owner ws d.0, refresh-Distinct q ws d.1)
]

Absent-append : (o : String) (ws vs : List Waiter) → Absent o ws → Absent o vs → Absent o (ws ++ vs)
Absent-append o [] vs a b = b
Absent-append o (w ∷ ws) vs a b = (a.0, Absent-append o ws vs a.1 b)

Distinct-append_one :
    (ws : List Waiter) (v : Waiter) → Distinct ws → Absent v.owner ws → Distinct (ws ++ v ∷ [])
Distinct-append_one [] v d a = (tt, tt)
Distinct-append_one (w ∷ ws) v d a = (
  Absent-append w.owner ws (v ∷ []) d.0 (differ_sym w.owner v.owner a.0, tt),
  Distinct-append_one ws v d.1 a.1,
)

pub enqueue-Distinct :
    (q : Request) (now : ℕ) (ws : List Waiter) → Distinct ws → Distinct (enqueue q now ws)
unfolding enqueue
enqueue-Distinct q now ws d = elim (Bool-cases (waits q.owner ws)) [
  | inl hit ↦ rw hit (sort_queue-Distinct (refresh q ws) (refresh-Distinct q ws d))
  | inr miss ↦ rw miss (
      sort_queue-Distinct (ws ++ _ ∷ [])
        (Distinct-append_one ws _ d (waits-Absent q.owner ws miss)))
]

pub enqueue-Sorted : (q : Request) (now : ℕ) (ws : List Waiter) → Sorted (enqueue q now ws)
unfolding enqueue
enqueue-Sorted q now ws = sort_queue-Sorted (joined q now ws)

-- joining the queue adds no owner but the caller
pub enqueue-Absent :
    (q : Request) (now : ℕ) (o : String) (ws : List Waiter)
    → str_eq q.owner o ≡ false
    → Absent o ws
    → Absent o (enqueue q now ws)
unfolding enqueue
enqueue-Absent q now o ws other a = elim (Bool-cases (waits q.owner ws)) [
  | inl hit ↦
      rw hit
        (sort_queue-All (λ x. str_eq x.owner o ≡ false) (refresh q ws) (refresh-Absent q o ws a))
  | inr miss ↦ rw miss (
      sort_queue-All (λ x. str_eq x.owner o ≡ false) (ws ++ _ ∷ [])
        (Absent-append o ws (_ ∷ []) a (other, tt)))
]

position-waits :
    (o : String) (ws : List Waiter) → waits o ws ≡ true → (n : ℕ) × (position o ws ≡ some n)
unfolding waits position
position-waits o [] h = absurd (ground arith)
position-waits o (w ∷ ws) h = elim (Bool-cases (str_eq w.owner o)) [
  | inl hit ↦ (1, ground arith)
  | inr miss ↦ let (n, e) = position-waits o ws (ground arith) in (n + 1, rw (miss, e) refl)
]

waits-put_in :
    (o : String) (w : Waiter) (ws : List Waiter)
    → waits o (put_in w ws) ≡ (if str_eq w.owner o then true else waits o ws)
unfolding waits
waits-put_in o w [] = refl
waits-put_in o w (v ∷ vs) = ground (arith, waits-put_in o w vs)

waits-sort_queue : (o : String) (ws : List Waiter) → waits o (sort_queue ws) ≡ waits o ws
unfolding sort_queue waits
waits-sort_queue o [] = refl
waits-sort_queue o (w ∷ ws) = waits-put_in o w (sort_queue ws) ∙ (rw (waits-sort_queue o ws) refl)

waits-refresh : (q : Request) (ws : List Waiter) → waits q.owner (refresh q ws) ≡ waits q.owner ws
unfolding waits refresh
waits-refresh q [] = refl
waits-refresh q (w ∷ ws) = ground (arith, waits-refresh q ws)

waits-append_self :
    (o : String) (ws : List Waiter) (v : Waiter) → v.owner ≡ o → waits o (ws ++ v ∷ []) ≡ true
unfolding waits
waits-append_self o [] v e = rw e (rw (eq_refl o) refl)
waits-append_self o (w ∷ ws) v e = ground (arith, waits-append_self o ws v)

-- The caller is in the queue it joined, so its position is found.
pub position-enqueue :
    (q : Request) (now : ℕ) (ws : List Waiter)
    → (n : ℕ) × (position q.owner (enqueue q now ws) ≡ some n)
unfolding enqueue joined
position-enqueue q now ws =
    position-waits q.owner (enqueue q now ws) (waits-sort_queue q.owner (joined q now ws) ∙ waiting)
  where
    waiting : waits q.owner (joined q now ws) ≡ true
    waiting = elim (Bool-cases (waits q.owner ws)) [
      | inl hit ↦ rw hit (waits-refresh q ws ∙ hit)
      | inr miss ↦ rw miss (waits-append_self q.owner ws _ refl)
    ]
