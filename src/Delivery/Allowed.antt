-- ===== src/Delivery/Allowed.antt =====
-- When a sweep may act on a job, and where it may send it (src/mco/orchestrator/delivery.py).
use bit_cadence.Prelude.{
  ℕ, ◌<◌, ◌≡◌, refl, String, true, false, Option, none, some, List, [], ◌∷◌, arith, str_eq, eq_iff,
  leb, not, ◌&&◌, truthy, get_or, lookup, contains, Bool-cases, Option-cases, some-injective, ap,
  inl, inr, ◌⊎◌, subst,
}
use bit_cadence.Delivery.{
  Job, Settings, Fleet, instance_host, identity_bound, Choice, to, give_up, instance_for,
  first_on_host, on_host, first_online, anywhere, choose,
}

first_online-found :
    (r : String) (online chain : List String)
    → first_online online chain ≡ some r
    → (contains r chain ≡ true) × (contains r online ≡ true)
first_online-found r online [] h = absurd (ground arith)
first_online-found r online (q ∷ chain) h = elim (Bool-cases (contains q online)) [
  | inl here ↦
      let same : q ≡ r = some-injective q r (rw here at h) in
      (ground (arith, eq_iff q r), subst (λ x. contains x online ≡ true) same here)
  | inr gone ↦ let (a, b) = first_online-found r online chain (rw gone at h) in (ground arith, b)
]

module _ (fleet : Fleet) where
  abbrev pub IsOnline : String → String → List (String × String) → Type 0
  IsOnline r i [] = ⊥
  IsOnline r i ((a, b) ∷ rest) = (a ≡ r) × (b ≡ i) ⊎ IsOnline r i rest

  -- Another instance of the role, online, on the host of the one that the job is pinned to.
  pub record OnHost (job : Job) (r : String) (i : Option String) : Type 0 where
    pub instance_id : String
    pub pinned_to : i ≡ some instance_id
    pub online : IsOnline r instance_id (fleet.instances job.org)
    pub another : str_eq (fleet.lower instance_id) (fleet.lower (get_or "" job.target_id)) ≡ false
    pub host : String
    pub has_host : str_eq host "" ≡ false
    pub from_host :
        instance_host fleet (get_or "" job.target_id) (fleet.lower job.target_role) ≡ host
    pub same_host : instance_host fleet instance_id r ≡ host

  -- Any instance of a role that is online.
  abbrev pub AnyWhere : Job → String → Option String → Type 0
  AnyWhere job r i = (i ≡ none) × (contains r (fleet.roles job.org) ≡ true)

  -- The role is a fallback of the job's, and the place one that the job may go to.
  pub record MayGo (settings : Settings) (job : Job) (reroutes : ℕ) (r : String) (i : Option String)
      : Type 0 where
    pub unbound : identity_bound job ≡ false
    pub within : reroutes < settings.max_reroutes
    pub chain : List String
    pub configured : lookup (fleet.lower job.target_role) settings.fallbacks ≡ some chain
    pub fallback : contains r chain ≡ true
    pub place :
        (truthy job.target_id ≡ true) × (settings.cross_host ≡ false) × OnHost job r i
        ⊎ ((truthy job.target_id && not settings.cross_host) ≡ false) × AnyWhere job r i

  instance_for-found :
      (pinned host role i : String) (online : List (String × String))
      → instance_for fleet pinned host role online ≡ some i
      → IsOnline role i online
        × (str_eq (fleet.lower i) (fleet.lower pinned) ≡ false)
        × (instance_host fleet i role ≡ host)
  unfolding instance_for
  instance_for-found pinned host role i [] h = absurd (ground arith)
  instance_for-found pinned host role i ((r, j) ∷ rest) h =
      elim (Bool-cases (
        str_eq r role
        && not (str_eq (fleet.lower j) (fleet.lower pinned))
        && str_eq (instance_host fleet j r) host)) [
          | inr passed ↦
              let (a, b, c) = instance_for-found pinned host role i rest (rw passed at h) in
              (inr a, b, c)
          | inl here ↦
              let same : j ≡ i = some-injective j i (rw here at h) in
              let parts : (str_eq r role ≡ true)
                  × (str_eq (fleet.lower j) (fleet.lower pinned) ≡ false)
                  × (str_eq (instance_host fleet j r) host ≡ true) =
                ground (arith, here) in
              let role_of : r ≡ role = ground (arith, parts, eq_iff r role) in
              let host_of : instance_host fleet j r ≡ host =
                ground (arith, parts, eq_iff (instance_host fleet j r) host) in
              (
                inl (role_of, same),
                subst (λ x. str_eq (fleet.lower x) (fleet.lower pinned) ≡ false) same parts.1,
                subst (λ x. instance_host fleet x role ≡ host) same
                    (subst (λ x. instance_host fleet j x ≡ host) role_of host_of),
              )
        ]

  first_on_host-found :
      (pinned host r i : String) (online : List (String × String)) (chain : List String)
      → first_on_host fleet pinned host online chain ≡ some (r, i)
      → (contains r chain ≡ true) × (instance_for fleet pinned host r online ≡ some i)
  unfolding first_on_host
  first_on_host-found pinned host r i online [] h = absurd (ground arith)
  first_on_host-found pinned host r i online (q ∷ chain) h =
      elim (Option-cases (instance_for fleet pinned host q online)) [
        | inl gone ↦
            let (a, b) =
              first_on_host-found pinned host r i online chain (rw (gone, first_on_host) at h) in
            (ground arith, b)
        | inr (j, here) ↦
            let found : Path (Option (String × String)) (some (q, j)) (some (r, i)) =
              rw (here, first_on_host) at h in
            let role_of : q ≡ r = ap (λ o. elim o [ some x ↦ x.0 | none ↦ q ]) found in
            let id_of : j ≡ i = ap (λ o. elim o [ some x ↦ x.1 | none ↦ j ]) found in
            (
              ground (arith, eq_iff q r),
              subst (λ x. instance_for fleet pinned host x online ≡ some i) role_of
                  (subst (λ x. instance_for fleet pinned host q online ≡ some x) id_of here),
            )
      ]

  -- What a choice of a place comes from.
  abbrev pub Chosen : Settings → Job → ℕ → Choice → Type 0
  Chosen settings job reroutes (to r i) = MayGo settings job reroutes r i
  Chosen settings job reroutes (give_up reason) = Unit {0}

  on_host-Chosen :
      (settings : Settings) (job : Job) (reroutes : ℕ) (chain : List String)
      → identity_bound job ≡ false
      → reroutes < settings.max_reroutes
      → lookup (fleet.lower job.target_role) settings.fallbacks ≡ some chain
      → truthy job.target_id ≡ true
      → settings.cross_host ≡ false
      → Chosen settings job reroutes (on_host fleet job (get_or "" job.target_id) chain)
  unfolding on_host
  on_host-Chosen settings job reroutes chain u w c pinned bound =
      let pin = get_or "" job.target_id in
      let host = instance_host fleet pin (fleet.lower job.target_role) in
      elim (Bool-cases (str_eq host "")) [
        | inl blank ↦ rw (on_host, blank) tt
        | inr known ↦
            elim (Option-cases (first_on_host fleet pin host (fleet.instances job.org) chain)) [
              | inl gone ↦ rw (on_host, known, gone) tt
              | inr ((r, i), found) ↦
                  let (fallback, first) =
                    first_on_host-found pin host r i (fleet.instances job.org) chain found in
                  let (online, another, same) =
                    instance_for-found pin host r i (fleet.instances job.org) first in
                  rw (on_host, known, found)
                    record {
                      unbound = u;
                      within = w;
                      chain = chain;
                      configured = c;
                      fallback = fallback;
                      place = inl (
                        pinned,
                        bound,
                        record {
                          instance_id = i;
                          pinned_to = refl;
                          online = online;
                          another = another;
                          host = host;
                          has_host = known;
                          from_host = refl;
                          same_host = same;
                        },
                      );
                    }
            ]
      ]

  anywhere-Chosen :
      (settings : Settings) (job : Job) (reroutes : ℕ) (chain : List String)
      → identity_bound job ≡ false
      → reroutes < settings.max_reroutes
      → lookup (fleet.lower job.target_role) settings.fallbacks ≡ some chain
      → (truthy job.target_id && not settings.cross_host) ≡ false
      → Chosen settings job reroutes (anywhere fleet job chain)
  unfolding anywhere
  anywhere-Chosen settings job reroutes chain u w c free =
      elim (Option-cases (first_online (fleet.roles job.org) chain)) [
        | inl gone ↦ rw (anywhere, gone) tt
        | inr (r, found) ↦
            let (fallback, online) = first_online-found r (fleet.roles job.org) chain found in
            rw (anywhere, found)
              record {
                unbound = u;
                within = w;
                chain = chain;
                configured = c;
                fallback = fallback;
                place = inr (free, (refl, online));
              }
      ]

  pub choose-Chosen :
      (settings : Settings) (job : Job) (reroutes : ℕ)
      → Chosen settings job reroutes (choose fleet settings job reroutes)
  unfolding choose
  choose-Chosen settings job reroutes = elim (Bool-cases (identity_bound job)) [
    | inl bound ↦ rw (choose, bound) tt
    | inr unbound ↦ elim (Bool-cases (leb settings.max_reroutes reroutes)) [
      | inl spent ↦ rw (choose, unbound, spent) tt
      | inr left ↦ elim (Option-cases (lookup (fleet.lower job.target_role) settings.fallbacks)) [
        | inl none_for ↦ rw (choose, unbound, left, none_for) tt
        | inr (chain, configured) ↦
            elim (Bool-cases (truthy job.target_id && not settings.cross_host)) [
              | inr free ↦
                  rw (choose, unbound, left, configured, free)
                    (anywhere-Chosen settings job reroutes chain unbound (ground arith) configured
                      free)
              | inl kept ↦
                  rw (choose, unbound, left, configured, kept)
                    (on_host-Chosen settings job reroutes chain unbound (ground arith) configured
                      (ground arith) (ground arith))
            ]
      ]
    ]
  ]
