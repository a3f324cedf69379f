-- ===== src/Audit/Honest.antt =====
-- `_record_event` puts a link at the end of a job's chain (src/mco/orchestrator/audit.py).
use bit_cadence.Prelude.{
  ℕ, ◌+◌, ◌≡◌, refl, String, Bool, true, false, Option, none, some, List, [], ◌∷◌, ◌++◌, arith,
  if◌then◌else◌, get_or, str_eq, eq_iff, leb, Bool-cases, inl, inr, subst, sym,
}
use bit_cadence.Audit.{
  Content, Row, Outside, with_time, last_or, hash_of, material, compute_hash, sign, of_job,
  get_events, last_event, sealed, moved, timely, append_event, record_event, is_recorded,
}
use bit_cadence.Audit.Chain.{
  IsSound, IsLink, IsChain, IsChain-append, Later, Timed, last_or-Timed, by_time-IsChain, computed,
}

module _ {D : Type 0} (o : Outside D) (key : Option String) where
  -- Every job's rows are a chain.
  abbrev pub Trails : List (Row D) → Type 0
  Trails rows = (job : String) → IsChain o key none (of_job job rows)

module _ {D : Type 0} (o : Outside D) (key : Option String) (sound : IsSound o) where
  -- The time of a new row is moved past that of the row before, if need be.
  timely-Later :
      (p : Option (Row D)) (c : Content D) (now : ℕ)
      → Timed o key p
      → (t : ℕ) × (timely o p (with_time c (o.micro now)) ≡ some (with_time c (o.micro t)))
        × Later o key p t
  unfolding timely moved
  timely-Later none c now h = (now, refl, tt)
  timely-Later (some p) c now (s, h) = elim (Bool-cases (leb now s)) [
    | inl back ↦
        let le : o.text_le (o.micro now) p.content.created_at ≡ true =
          subst (λ x. o.text_le (o.micro now) x ≡ true) (sym h)
            (ground (arith, sound.ordered now s)) in
        let read : o.instant p.content.created_at ≡ some s =
          subst (λ x. o.instant x ≡ some s) (sym h) (sound.reads s) in
        (s + 1, rw (le, read, moved) refl, (s, h, omega arith))
    | inr on ↦
        let le : o.text_le (o.micro now) p.content.created_at ≡ false =
          subst (λ x. o.text_le (o.micro now) x ≡ false) (sym h)
            (ground (arith, sound.ordered now s)) in
        (now, rw le refl, (s, h, ground arith))
  ]

  -- The row that is sealed is a link after the last one.
  sealed-IsLink :
      (p : Option (Row D)) (outbox : Option String) (c : Content D) (t : ℕ)
      → c.created_at ≡ o.micro t
      → Later o key p t
      → (r : Row D) × (sealed o key (hash_of p) outbox c ≡ some r)
        × IsLink o key p r
        × (r.content.job_id ≡ c.job_id)
  unfolding sealed
  sealed-IsLink p outbox c t h later =
      let digest = o.sha256 (material (hash_of p) (o.canonical (with_time c (o.micro t)))) in
      let e : compute_hash o (hash_of p) c ≡ some digest = computed o key sound (hash_of p) c t h in
      let r : Row D = record {
        content = c;
        prev_hash = hash_of p;
        hash = digest;
        signature = get_or "" (sign o digest key);
        outbox_id = outbox;
      } in
      (
        r,
        rw (e, sealed) refl,
        record { time = t; stamped = h; later = later; linked = refl; hashed = e; signed = refl },
        refl,
      )

  get_events-Trails :
      (job : String) (rows : List (Row D))
      → Trails o key rows
      → get_events o job rows ≡ of_job job rows
  unfolding get_events
  get_events-Trails job rows h = by_time-IsChain o key sound none (of_job job rows) (h job)

  of_job-append :
      (job : String) (rows : List (Row D)) (r : Row D)
      → of_job job (rows ++ (r ∷ []))
        ≡ (if str_eq r.content.job_id job then of_job job rows ++ (r ∷ []) else of_job job rows)
  of_job-append job [] r = ground arith
  of_job-append job (q ∷ rows) r = ground (arith, of_job-append job rows r)

  -- A row goes to the trail of its job.
  append-Trails :
      (rows : List (Row D)) (r : Row D)
      → Trails o key rows
      → IsLink o key (last_or none (of_job r.content.job_id rows)) r
      → Trails o key (rows ++ (r ∷ []))
  append-Trails rows r h l job = elim (Bool-cases (str_eq r.content.job_id job)) [
    | inl same ↦
        let here : r.content.job_id ≡ job = ground (arith, eq_iff r.content.job_id job) in
        let link : IsLink o key (last_or none (of_job job rows)) r =
          subst (λ x. IsLink o key (last_or none (of_job x rows)) r) here l in
        subst (IsChain o key none) (sym (rw (of_job-append job rows r, same) refl))
          (IsChain-append o key none (of_job job rows) r (h job) link)
    | inr other ↦
        subst (IsChain o key none) (sym (rw (of_job-append job rows r, other) refl)) (h job)
  ]

  append_event-link :
      (outbox : Option String) (c c' : Content D) (rows : List (Row D)) (r : Row D)
      → timely o (last_event o c.job_id rows) c ≡ some c'
      → sealed o key (hash_of (last_event o c.job_id rows)) outbox c' ≡ some r
      → append_event o key outbox c rows ≡ some (rows ++ (r ∷ []))
  unfolding append_event
  append_event-link outbox c c' rows r t e = rw (t, append_event, e) refl

  append_event-Trails :
      (outbox : Option String) (now : ℕ) (c : Content D) (rows : List (Row D))
      → Trails o key rows
      → (rows' : List (Row D)) × (append_event o key outbox (with_time c (o.micro now)) rows
          ≡ some rows')
        × Trails o key rows'
  unfolding last_event
  append_event-Trails outbox now c rows h =
      let p = last_or none (of_job c.job_id rows) in
      let e : last_event o c.job_id rows ≡ p = rw (get_events-Trails c.job_id rows h) refl in
      let (t, timed, later) =
        timely-Later p c now (last_or-Timed o key none (of_job c.job_id rows) tt (h c.job_id)) in
      let (r, made, link, named) = sealed-IsLink p outbox (with_time c (o.micro t)) t refl later in
      let link' : IsLink o key (last_or none (of_job r.content.job_id rows)) r =
        subst (λ x. IsLink o key (last_or none (of_job x rows)) r) (sym named) link in
      (
        rows ++ (r ∷ []),
        append_event-link outbox (with_time c (o.micro now)) (with_time c (o.micro t)) rows r
            (subst (λ x. timely o x (with_time c (o.micro now)) ≡ some (with_time c (o.micro t)))
              (sym e) timed)
            (subst (λ x. sealed o key (hash_of x) outbox (with_time c (o.micro t)) ≡ some r) (sym e)
              made),
        append-Trails rows r h link',
      )

  -- A call of record_event raises nothing and keeps every trail a chain.
  pub record_event-Trails :
      (now : ℕ) (outbox : Option String) (c : Content D) (rows : List (Row D))
      → Trails o key rows
      → (good : Bool) × (rows' : List (Row D)) × (record_event o key now outbox c rows
          ≡ some (good, rows'))
        × Trails o key rows'
  unfolding record_event
  record_event-Trails now outbox c rows h = elim (Bool-cases (str_eq c.job_id "")) [
    | inl blank ↦ (false, rows, rw blank refl, h)
    | inr named ↦ elim (Bool-cases (is_recorded outbox rows)) [
      | inl there ↦ (true, rows, rw (named, there) refl, h)
      | inr fresh ↦
          let (rows', e, trails) = append_event-Trails outbox now c rows h in
          (true, rows', rw (named, fresh, e) refl, trails)
    ]
  ]
