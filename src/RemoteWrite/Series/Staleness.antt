-- ===== src/RemoteWrite/Series/Staleness.antt =====
-- What withStale marks and what activeSeries recovers.
use mathlib.Core.Bool.{false≢true}
use llm_metrics_exporter.Base.{
  ℕ, ◌≡◌, ◌↔◌, ◌⊎◌, inl, inr, refl, sym, ap, subst, ◌∙◌, true, List, [], ◌∷◌, ◌++◌, append-nil,
  arith, same_bytes, same_bytes_iff, Bool-cases,
}
use llm_metrics_exporter.RemoteWrite.Series.{
  Label, TimeSeries, stale_bits, series_key, seen_in, stale_point, stale_of, with_stale, is_active,
  active_series,
}
use llm_metrics_exporter.RemoteWrite.Series.Keys.{series_key-injective}

-- A series with these labels is in the list.
abbrev pub Has : List Label → List TimeSeries → Type 0
Has ls [] = ⊥
Has ls (s ∷ ss) = (s.labels ≡ ls) ⊎ Has ls ss

abbrev pub AllSeries : (TimeSeries → Type 0) → List TimeSeries → Type 0
AllSeries P [] = Unit
AllSeries P (s ∷ ss) = P s × AllSeries P ss

-- The set of keys is the set of label lists: keys do not collide.
pub seen_in-Has :
    (ss : List TimeSeries) (ls : List Label) → (seen_in ss (series_key ls) ≡ true) ↔ Has ls ss
unfolding seen_in
seen_in-Has [] ls = (λ h. false≢true h, λ h. absurd h)
seen_in-Has (s ∷ ss) ls = elim (Bool-cases (same_bytes (series_key s.labels) (series_key ls))) [
  | inl same ↦
      rw (same, seen_in)
        (λ e. inl (series_key-injective _ _ ((same_bytes_iff _ _).0 same)), λ h. refl)
  | inr other ↦
      rw (other, seen_in)
        (
          λ e. inr ((seen_in-Has ss ls).0 e),
          λ h. elim h [
            | inl e ↦ absurd (false≢true (sym other ∙ (same_bytes_iff _ _).1 (ap series_key e)))
            | inr m ↦ (seen_in-Has ss ls).1 m
          ],
        )
]

Has-append :
    (ls : List Label) (xs ys : List TimeSeries) → Has ls (xs ++ ys) ↔ (Has ls xs ⊎ Has ls ys)
Has-append ls [] ys = (λ h. inr h, λ h. elim h [ inl x ↦ absurd x | inr y ↦ y ])
Has-append ls (x ∷ xs) ys = (
  λ h. elim h [
    | inl e ↦ inl (inl e)
    | inr m ↦ elim ((Has-append ls xs ys).0 m) [ inl a ↦ inl (inr a) | inr b ↦ inr b ]
  ],
  λ h. elim h [
    | inl a ↦ elim a [ inl e ↦ inl e | inr m ↦ inr ((Has-append ls xs ys).1 (inl m)) ]
    | inr b ↦ inr ((Has-append ls xs ys).1 (inr b))
  ],
)

module _ (current : List TimeSeries) (timestamp : ℕ) where
  abbrev pub Marked : List TimeSeries → TimeSeries → Type 0
  Marked previous s =
      (s.samples ≡ record { bits = stale_bits; timestamp = timestamp } ∷ [])
      × Has s.labels previous
      × ¬ Has s.labels current

  AllSeries-weaken :
      (x : TimeSeries) (previous ss : List TimeSeries)
      → AllSeries (Marked previous) ss
      → AllSeries (Marked (x ∷ previous)) ss
  AllSeries-weaken x previous [] h = tt
  AllSeries-weaken x previous (s ∷ ss) h =
      ((h.0.0, inr h.0.1, h.0.2), AllSeries-weaken x previous ss h.1)

  pub stale_of-Marked :
      (previous : List TimeSeries)
      → AllSeries (Marked previous) (stale_of current previous timestamp)
  unfolding stale_of stale_point
  stale_of-Marked [] = tt
  stale_of-Marked (s ∷ ss) =
      let rest = AllSeries-weaken s ss _ (stale_of-Marked ss) in
      elim (Bool-cases (seen_in current (series_key s.labels))) [
        | inl seen ↦ rw (seen, stale_of) rest
        | inr gone ↦
            rw (gone, stale_of)
              (
                (refl, inl refl, λ h. false≢true (sym gone ∙ (seen_in-Has current s.labels).1 h)),
                rest,
              )
      ]

  stale_of-Has :
      (ls : List Label) (previous : List TimeSeries)
      → Has ls previous
      → Has ls current ⊎ Has ls (stale_of current previous timestamp)
  unfolding stale_of stale_point
  stale_of-Has ls [] h = absurd h
  stale_of-Has ls (s ∷ ss) h = elim (Bool-cases (seen_in current (series_key s.labels))) [
    | inl seen ↦
        rw (seen, stale_of)
          (elim h [
            | inl e ↦ inl (subst (λ l. Has l current) e ((seen_in-Has current s.labels).0 seen))
            | inr m ↦ stale_of-Has ls ss m
          ])
    | inr gone ↦
        rw (gone, stale_of)
          (elim h [
            | inl e ↦ inr (inl e)
            | inr m ↦ elim (stale_of-Has ls ss m) [ inl a ↦ inl a | inr b ↦ inr (inr b) ]
          ])
  ]

  Has-Marked :
      (ls : List Label) (previous ss : List TimeSeries)
      → AllSeries (Marked previous) ss
      → Has ls ss
      → Has ls previous
  Has-Marked ls previous [] h m = absurd m
  Has-Marked ls previous (s ∷ ss) h (inl e) = subst (λ l. Has l previous) e h.0.1
  Has-Marked ls previous (s ∷ ss) h (inr m) = Has-Marked ls previous ss h.1 m

  -- A request is the current snapshot as it is, followed by series that each carry exactly one stale
  -- marker at the new time, stood in the previous snapshot and do not stand in the current one; and it
  -- holds a series exactly if the current or the previous snapshot does.
  pub with_stale-Has :
      (ls : List Label) (previous : List TimeSeries)
      → ((added : List TimeSeries) × (with_stale current previous timestamp ≡ current ++ added)
          × AllSeries (Marked previous) added)
        × (Has ls (with_stale current previous timestamp) ↔ (Has ls current ⊎ Has ls previous))
  unfolding with_stale
  with_stale-Has ls previous = (
    (stale_of current previous timestamp, refl, stale_of-Marked previous),
    (
      λ h. elim ((Has-append ls current _).0 h) [
        | inl a ↦ inl a
        | inr b ↦ inr (Has-Marked ls previous _ (stale_of-Marked previous) b)
      ],
      λ h.
          (Has-append ls current _).1
            (elim h [ inl a ↦ inl a | inr b ↦ stale_of-Has ls previous b ]),
    ),
  )

active-append :
    (xs ys : List TimeSeries) → active_series (xs ++ ys) ≡ active_series xs ++ active_series ys
unfolding active_series
active-append [] ys = refl
active-append (x ∷ xs) ys = ground (arith, active-append xs ys)

active_all : (ss : List TimeSeries) → AllSeries (λ s. is_active s ≡ true) ss → active_series ss ≡ ss
unfolding active_series
active_all [] h = refl
active_all (s ∷ ss) h = rw (h.0, active_all ss h.1)

active-stale_of :
    (current previous : List TimeSeries) (timestamp : ℕ)
    → active_series (stale_of current previous timestamp) ≡ []
unfolding active_series is_active stale_of stale_point
active-stale_of current [] timestamp = refl
active-stale_of current (s ∷ ss) timestamp =
    elim (Bool-cases (seen_in current (series_key s.labels))) [
      | inl seen ↦ rw (seen, stale_of) (active-stale_of current ss timestamp)
      | inr gone ↦ rw (gone, stale_of) (active-stale_of current ss timestamp)
    ]

-- What a restart reads back from a request is the snapshot that the request was made of: the stale
-- markers are left out and nothing else, when each current series has a value that is no marker.
pub active-with_stale :
    (current previous : List TimeSeries) (timestamp : ℕ)
    → AllSeries (λ s. is_active s ≡ true) current
    → active_series (with_stale current previous timestamp) ≡ current
unfolding with_stale
active-with_stale current previous timestamp h =
    active-append current _
    ∙ ap (◌++◌ (active_series current)) (active-stale_of current previous timestamp)
    ∙ append-nil _
    ∙ active_all current h
