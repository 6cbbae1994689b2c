-- ===== src/Deploy/Invariant.antt =====
-- What the statements of api/internal/store/deployments.go keep between them. The rows are listed
-- with the latest insert first: no row repeats the id of a row behind it, is as old as a row of its
-- app behind it, or has a row behind it that occupies the lane of its app.
pub mod Execute
pub mod Preserved
pub mod Parked
use vac.Prelude.{
  ℕ, ◌<◌, Bool, true, false, not, ◌&&◌, ◌||◌, List, [], ◌∷◌, Option, none, some, any, keep, ltb,
  ◌==◌, if◌then◌else◌, ◌≡◌, refl, arith, All, All-intro, any-keep, map, Bool-cases, ||-eq-false,
  ||-false, inl, not-eq-true, inr, &&-eq-true,
}
use vac.Deploy.Schema.{
  Deployment, Db, ok, err, holds_lane, has_id, occupies, lanes_unique, update_rows, insert_row,
  lane_taken,
}

abbrev pub clash : Deployment → Deployment → Bool
clash d e =
    e.id == d.id
    || occupies d.app_id e
    || (e.app_id == d.app_id && not (ltb e.triggered_at d.triggered_at))

abbrev pub ordered : List Deployment → Bool
ordered [] = true
ordered (d ∷ ds) = not (any (clash d) ds) && ordered ds

-- What an update leaves alone in a row, and that it puts the row into no lane.
abbrev pub Keeps : (Deployment → Bool) → (Deployment → Deployment) → Deployment → Type 0
Keeps p f d =
    p d ≡ true
    → ((f d).id ≡ d.id)
      × ((f d).app_id ≡ d.app_id)
      × ((f d).triggered_at ≡ d.triggered_at)
      × (holds_lane (f d).status ≡ true → holds_lane d.status ≡ true)

clash-same :
    (d d' e e' : Deployment)
    → d'.id ≡ d.id
    → d'.app_id ≡ d.app_id
    → d'.triggered_at ≡ d.triggered_at
    → e'.id ≡ e.id
    → e'.app_id ≡ e.app_id
    → e'.triggered_at ≡ e.triggered_at
    → (holds_lane e'.status ≡ true → holds_lane e.status ≡ true)
    → clash d e ≡ false
    → clash d' e' ≡ false
clash-same d d' e e' i a t j b u l h = ground arith

module _ (p : Deployment → Bool) (f : Deployment → Deployment) where
  clash-update :
      (d d' e : Deployment)
      → d'.id ≡ d.id
      → d'.app_id ≡ d.app_id
      → d'.triggered_at ≡ d.triggered_at
      → Keeps p f e
      → clash d e ≡ false
      → clash d' (if p e then f e else e) ≡ false
  clash-update d d' e i a t k h = elim (Bool-cases (p e)) [
    | inl y ↦ rw y (let (j, b, u, l) = k y in clash-same d d' e (f e) i a t j b u l h)
    | inr n ↦ rw n (clash-same d d' e e i a t refl refl refl (λ x. x) h)
  ]

  any-clash-update :
      (d d' : Deployment) (ds : List Deployment)
      → d'.id ≡ d.id
      → d'.app_id ≡ d.app_id
      → d'.triggered_at ≡ d.triggered_at
      → All (Keeps p f) ds
      → any (clash d) ds ≡ false
      → any (clash d') (update_rows p f ds) ≡ false
  any-clash-update d d' [] i a t keeps h = refl
  any-clash-update d d' (e ∷ ds) i a t keeps h =
      let (h1, h2) = ||-eq-false (clash d e) (any (clash d) ds) h in
      ||-false (clash-update d d' e i a t keeps.0 h1) (any-clash-update d d' ds i a t keeps.1 h2)

  pub ordered-update :
      (rows : List Deployment)
      → All (Keeps p f) rows
      → ordered rows ≡ true
      → ordered (update_rows p f rows) ≡ true
  ordered-update [] keeps h = refl
  ordered-update (d ∷ ds) keeps h = elim (Bool-cases (p d)) [
    | inl y ↦
        let (i, a, t, l) = keeps.0 y in
        rw y (
          rw (any-clash-update d (f d) ds i a t keeps.1 (not-eq-true _ (&&-eq-true _ _ h).0))
            (ordered-update ds keeps.1 (&&-eq-true _ _ h).1))
    | inr n ↦ rw n (
        rw (any-clash-update d d ds refl refl refl keeps.1 (not-eq-true _ (&&-eq-true _ _ h).0))
          (ordered-update ds keeps.1 (&&-eq-true _ _ h).1))
  ]

pub ordered-keep :
    (q : Deployment → Bool) (rows : List Deployment)
    → ordered rows ≡ true
    → ordered (keep q rows) ≡ true
ordered-keep q [] h = h
ordered-keep q (d ∷ ds) h = ground (arith, any-keep (clash d) q ds, ordered-keep q ds)

pub lane_taken_of_clash :
    (d : Deployment) (ds : List Deployment)
    → any (clash d) ds ≡ false
    → lane_taken d.app_id ds ≡ false
lane_taken_of_clash d [] h = refl
lane_taken_of_clash d (e ∷ ds) h = ground (arith, lane_taken_of_clash d ds)

-- The order implies the index of the schema.
pub lanes_unique_of_ordered :
    (rows : List Deployment) → ordered rows ≡ true → lanes_unique rows ≡ true
lanes_unique_of_ordered [] h = refl
lanes_unique_of_ordered (d ∷ ds) h =
    ground (arith, lane_taken_of_clash d ds, lanes_unique_of_ordered ds)
