-- ===== src/Deploy/Schema/Success.antt =====
-- What a successful statement leaves: the rows are those that its WHERE and SET describe.
use vac.Deploy.Schema.Laws.{any-count}
use vac.Prelude.{
  Bool, ◌≡◌, ℕ, ◌∷◌, any, arith, false, true, Option-cases, ◌∙◌, refl, inl, inr, List, count, some,
  [], ◌⊎◌, In, Bool-cases, sym, subst, ap,
}
use vac.Deploy.Schema.{
  Deployment, Db, Result, ok, err, ◌>>=◌, holds_lane, has_id, lane_taken, update_rows, insert_row,
  exec, exec_found, exec_any, exec_returning, first, Error,
}

pub >>=-eq-ok {ℓ κ} :
    {A : Type ℓ} {B : Type κ} (m : Result A) (k : A → Result B) {b : B}
    → (m >>= k) ≡ ok b
    → (a : A) × (m ≡ ok a) × (k a ≡ ok b)
>>=-eq-ok (ok a) k h = (a, refl, h)
>>=-eq-ok (err e) k h = cc

pub Result-cases {ℓ} :
    {A : Type ℓ} (r : Result A) → ((a : A) × (r ≡ ok a)) ⊎ ((e : Error) × (r ≡ err e))
Result-cases (ok a) = inl (a, refl)
Result-cases (err e) = inr (e, refl)

module _ (p : Deployment → Bool) (f : Deployment → Deployment) (db : Db) where
  pub exec_rows :
      {n : ℕ} {db' : Db} → exec p f db ≡ ok (n, db') → db'.rows ≡ update_rows p f db.rows
  unfolding exec
  exec_rows h = ground arith

  pub exec_found_rows : {db' : Db} → exec_found p f db ≡ ok db' → db'.rows ≡ update_rows p f db.rows
  unfolding exec_found
  exec_found_rows {db'} h =
      let (r, e, k) = >>=-eq-ok (exec p f db) _ h in
      let done : db'.rows ≡ r.1.rows = ground arith in done ∙ exec_rows e

  pub exec_any_rows : {db' : Db} → exec_any p f db ≡ ok db' → db'.rows ≡ update_rows p f db.rows
  unfolding exec_any
  exec_any_rows {db'} h =
      let (r, e, k) = >>=-eq-ok (exec p f db) _ h in
      let done : db'.rows ≡ r.1.rows = ground arith in done ∙ exec_rows e

  pub exec_returning_rows :
      {d : Deployment} {db' : Db}
      → exec_returning p f db ≡ ok (d, db')
      → db'.rows ≡ update_rows p f db.rows
  unfolding exec_returning
  exec_returning_rows {d} {db'} h = elim (Option-cases (first p db.rows)) [
    | inl no_row ↦ absurd (ground arith)
    | inr (row, found) ↦
        let (r, e, k) =
          >>=-eq-ok {B = Deployment × Db} (exec p f db) (λ r. ok (f row, r.1)) {b = (d, db')}
            (ground arith) in
        let done : db'.rows ≡ r.1.rows = ground arith in done ∙ exec_rows e
  ]

module _ (p : Deployment → Bool) (f : Deployment → Deployment) (db : Db) where
  exec_db :
      {n : ℕ} {db' : Db}
      → exec p f db ≡ ok (n, db')
      → (n ≡ count p db.rows) × (db' ≡ record db { rows = update_rows p f db.rows })
  unfolding exec
  exec_db h = ground arith

  -- Where Exec must affect a row, one passed the WHERE.
  pub exec_found_db :
      {db' : Db}
      → exec_found p f db ≡ ok db'
      → (any p db.rows ≡ true) × (db' ≡ record db { rows = update_rows p f db.rows })
  unfolding exec_found
  exec_found_db {db'} h =
      let (r, e, k) = >>=-eq-ok (exec p f db) _ h in
      let (n, left) = exec_db e in (ground (arith, any-count p db.rows), ground arith)

  first-any : (rows : List Deployment) {d : Deployment} → first p rows ≡ some d → any p rows ≡ true
  first-any [] h = cc
  first-any (e ∷ es) {d} h = ground (arith, first-any es {d = d})

  pub exec_returning_db :
      {d : Deployment} {db' : Db}
      → exec_returning p f db ≡ ok (d, db')
      → (any p db.rows ≡ true) × (db' ≡ record db { rows = update_rows p f db.rows })
  unfolding exec_returning
  exec_returning_db {d} {db'} h = elim (Option-cases (first p db.rows)) [
    | inl no_row ↦ absurd (ground arith)
    | inr (row, found) ↦
        let (r, e, k) =
          >>=-eq-ok {B = Deployment × Db} (exec p f db) (λ r. ok (f row, r.1)) {b = (d, db')}
            (ground arith) in
        let (n, left) = exec_db e in (first-any db.rows found, ground arith)
  ]

pub insert_row_ok :
    (d : Deployment) (db : Db) {db' : Db}
    → insert_row d db ≡ ok db'
    → (db'.rows ≡ d ∷ db.rows)
      × (any (has_id d.id) db.rows ≡ false)
      × (holds_lane d.status ≡ true → lane_taken d.app_id db.rows ≡ false)
unfolding insert_row
insert_row_ok d db h = ground arith

pub first-found :
    (p : Deployment → Bool) (rows : List Deployment) {d : Deployment}
    → first p rows ≡ some d
    → In d rows × (p d ≡ true)
first-found p [] h = absurd (ground arith)
first-found p (x ∷ xs) {d} h = elim (Bool-cases (p x)) [
  | inl y ↦ let same : x ≡ d = ground arith in (inl (sym same), subst (λ z. p z ≡ true) same y)
  | inr n ↦ let (m, q) = first-found p xs {d = d} (ground arith) in (inr m, q)
]

abbrev row_or : Deployment → Result (Deployment × Db) → Deployment
row_or d (ok (x, db)) = x
row_or d (err e) = d

pub exec_returning_row :
    (p : Deployment → Bool) (f : Deployment → Deployment) (db : Db) {d : Deployment} {db' : Db}
    → exec_returning p f db ≡ ok (d, db')
    → (x : Deployment) × In x db.rows × (p x ≡ true) × (d ≡ f x)
unfolding exec_returning
exec_returning_row p f db {d} {db'} h = elim (Option-cases (first p db.rows)) [
  | inl no_row ↦ absurd (ground arith)
  | inr (x, found) ↦
      let (m, q) = first-found p db.rows {d = x} found in
      let went : (exec p f db >>= λ r. ok (f x, r.1)) ≡ ok (d, db') =
        rw (exec_returning, found) at h in
      let (r, done, out) : (r : ℕ × Db) × (exec p f db ≡ ok r) × (ok (f x, r.1) ≡ ok (d, db')) =
        >>=-eq-ok (exec p f db) (λ r. ok (f x, r.1)) went in
      (x, m, q, sym (ap (row_or d) out))
]
