-- ===== src/Score/Frames.antt =====
-- Steps of a run that start nothing: they change no entry, settle one, or settle all that have expired.
use bit_cadence.Prelude.{
  ℕ, ◌≤◌, ◌≡◌, refl, sym, ap, ◌∙◌, String, false, Option, none, some, [], ◌∷◌, arith, if◌then◌else◌,
  lookup, insert, Dict, Option-cases, Bool-cases, inl, inr,
}
use bit_cadence.Score.Run.{Entry, Run, is_accepted, count_active}
use bit_cadence.Score.Steps.{retried, is_expired, expire_states}
use bit_cadence.Score.Invariant.{
  IsOwn, IsSound, Settles, Settles-refl, AllSettle, AllSettle-IsSound, AllSettle-insert,
  count_active-insert, IsOwn-insert, weight,
}

-- The parts of a run that only `start` and the beginning write.
pub record IsFrame (r r' : Run) : Type 0 where
  pub budget : r'.budget ≡ r.budget
  pub reserved : r'.reserved ≡ r.reserved
  pub parallel : r'.max_parallel ≡ r.max_parallel
  pub grants : r'.grants ≡ r.grants
  pub run_id : r'.run_id ≡ r.run_id
  pub fingerprint : r'.fingerprint ≡ r.fingerprint

pub IsOwn-IsFrame :
    (r r' : Run) (k : String) (e : Entry) → IsFrame r r' → IsOwn r k e → IsOwn r' k e
IsOwn-IsFrame r r' k e f v = record {
  tries = v.tries;
  more_tries = v.more_tries;
  claimed = λ h. rw (f.run_id, f.fingerprint) (v.claimed h);
  written = v.written;
  timed = v.timed;
}

AllSettle-refl : (d : Dict Entry) → AllSettle d d
AllSettle-refl d = record {
  fore = λ k e p. (e, p, Settles-refl e);
  back = λ k e p. (e, p, Settles-refl e);
}

-- No entry changes.
pub still-IsSound : (r r' : Run) → IsFrame r r' → r'.states ≡ r.states → IsSound r → IsSound r'
still-IsSound r r' f s i =
    AllSettle-IsSound r r' f.budget f.reserved f.parallel f.grants (rw s (AllSettle-refl r.states))
      (rw s (omega arith))
      (λ k e p. IsOwn-IsFrame r r' k e f (i.own k e (ap (lookup k) (sym s) ∙ p))) i

weight-Settles : (e f : Entry) → Settles e f → weight f ≤ weight e
weight-Settles e f s = ground (arith, s.active)

-- One entry settles.
pub settle-IsSound :
    (r r' : Run) (k : String) (e f : Entry)
    → IsFrame r r'
    → r'.states ≡ insert k f r.states
    → lookup k r.states ≡ some e
    → Settles e f
    → IsOwn r' k f
    → IsSound r
    → IsSound r'
settle-IsSound r r' k e f fr s p t o i =
    AllSettle-IsSound r r' fr.budget fr.reserved fr.parallel fr.grants
      (rw s (AllSettle-insert k e f r.states p t))
      (rw s (omega (arith, count_active-insert k e f r.states p, weight-Settles e f t)))
      (IsOwn-insert r r' k f fr.run_id fr.fingerprint s o i.own) i

pub retried-Settles : (e : Entry) → is_accepted e.status ≡ false → Settles e (retried e)
unfolding retried
retried-Settles e h = record {
  same = refl;
  active = λ a. absurd (ground arith);
  stays = λ a. absurd (ground arith);
  begun = λ a. absurd (ground arith);
}

pub retried-IsOwn : (r r' : Run) (k : String) (e : Entry) → IsOwn r k e → IsOwn r' k (retried e)
unfolding retried
retried-IsOwn r r' k e v = record {
  tries = v.tries;
  more_tries = λ a. ground arith;
  claimed = λ a. absurd (ground arith);
  written = λ a. absurd (ground arith);
  timed = λ a. absurd (ground arith);
}

abbrev expired_entry : ℕ → Entry → Entry
expired_entry now e = if is_expired now e then retried e else e

expired_or_none : ℕ → Option Entry → Option Entry
expired_or_none now none = none
expired_or_none now (some e) = some (expired_entry now e)

lookup-expire_states :
    (now : ℕ) (k : String) (d : Dict Entry)
    → lookup k (expire_states now d) ≡ expired_or_none now (lookup k d)
unfolding lookup expire_states expired_or_none
lookup-expire_states now k [] = refl
lookup-expire_states now k ((j, e) ∷ d) = ground (arith, lookup-expire_states now k d)

expired_entry-Settles : (now : ℕ) (e : Entry) → Settles e (expired_entry now e)
expired_entry-Settles now e = elim (Bool-cases (is_expired now e)) [
  | inl late ↦ rw late (retried-Settles e (ground arith))
  | inr early ↦ rw early (Settles-refl e)
]

count_active-expire_states :
    (now : ℕ) (d : Dict Entry) → count_active (expire_states now d) ≤ count_active d
unfolding count_active expire_states
count_active-expire_states now [] = omega arith
count_active-expire_states now ((k, e) ∷ d) = omega (
  arith,
  count_active-expire_states now d,
  weight-Settles e (expired_entry now e) (expired_entry-Settles now e),
)

expire_back :
    (now : ℕ) (k : String) (d : Dict Entry) (f : Entry)
    → lookup k (expire_states now d) ≡ some f
    → (e : Entry) × (lookup k d ≡ some e) × (f ≡ expired_entry now e)
unfolding expired_or_none
expire_back now k d f p = elim (Option-cases (lookup k d)) [
  | inl n ↦ absurd (ground (arith, lookup-expire_states now k d))
  | inr (e, q) ↦ (e, q, ground (arith, lookup-expire_states now k d))
]

-- All that has expired settles.
pub expire-IsSound :
    (now : ℕ) (r r' : Run)
    → IsFrame r r'
    → r'.states ≡ expire_states now r.states
    → IsSound r
    → IsSound r'
unfolding expired_or_none
expire-IsSound now r r' fr s i =
    AllSettle-IsSound r r' fr.budget fr.reserved fr.parallel fr.grants
      (rw s (record {
        fore = λ k e p. (
          expired_entry now e,
          lookup-expire_states now k r.states ∙ ap (expired_or_none now) p,
          expired_entry-Settles now e,
        );
        back = λ k f p.
            let (e, q, t) = expire_back now k r.states f p in
            (e, q, rw t (expired_entry-Settles now e));
      }))
      (rw s (count_active-expire_states now r.states))
      (λ k f p.
        let (e, q, t) = expire_back now k r.states f (ap (lookup k) (sym s) ∙ p) in
        rw t (elim (Bool-cases (is_expired now e)) [
          | inl late ↦ rw late (retried-IsOwn r r' k e (i.own k e q))
          | inr early ↦ rw early (IsOwn-IsFrame r r' k e fr (i.own k e q))
        ]))
      i
