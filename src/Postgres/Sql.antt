-- ===== src/Postgres/Sql.antt =====
-- Store methods: they run statements, each of which may fail, and return a value or an error.
use talyvor_docs.Prelude.{String, Bool, true, false, List, [], ◌∷◌, if◌then◌else◌}
use talyvor_docs.Postgres.Rows.{Db}

-- The errors of the stores. `failed` is one that the database reports, `no_rows` is pgx.ErrNoRows
-- where a method passes it on.
pub data Error : Type 0 where
  failed no_rows not_found : Error
  no_reviewers not_reviewer not_approved : Error
  invalid_decision : String → Error
  already_locked : String → Error
  not_locker : Error
  held_by_other : Error
  invalid_access no_subject unsupported_subject team_admin not_manager : Error

pub data Result {ℓ} (A : Type ℓ) : Type ℓ where
  ok : A → Result A
  err : Error → Result A

-- What a method wrote before an error stays written.
abbrev pub Sql {ℓ} : Type ℓ → Type ℓ
Sql A = Db → Result A × Db

module _ {ℓ} {A : Type ℓ} where
  abbrev pub pure : A → Sql A
  pure a db = (ok a, db)

  abbrev pub raise : Error → Sql A
  raise e db = (err e, db)

  abbrev pub bind_result {κ} :
      {B : Type κ} → Result A → Db → (A → Db → Result B × Db) → Result B × Db
  bind_result (ok a) db f = f a db
  bind_result (err e) db f = (err e, db)

infixl 5 ◌>>=◌ ◌>>◌
abbrev pub ◌>>=◌ : {A B : Type 0} → Sql A → (A → Sql B) → Sql B
◌>>=◌ m f db = let (r, db') = m db in bind_result r db' f

abbrev pub ◌>>◌ : {B : Type 0} → Sql (Unit {0}) → Sql B → Sql B
m >> k = m >>= λ _. k

-- One statement: it fails and does nothing, or it reads and writes the tables.
unfoldable pub statement : {A : Type 0} → (Db → A × Db) → Sql A
statement run db = elim db.outages [
  | [] ↦ let (a, db') = run db in (ok a, db')
  | down ∷ rest ↦
      let db' = record db { outages = rest } in
      if down then (err failed, db') else (ok (run db').0, (run db').1)
]

unfoldable pub select : {A : Type 0} → (Db → A) → Sql A
unfolding statement
select read = statement (λ db. (read db, db))

-- A method that keeps `P`, whether it returns or fails.
abbrev pub Keeps {ℓ} : {A : Type 0} → (Db → Type ℓ) → Sql A → Type ℓ
Keeps P m = (db : Db) → P db → P (m db).1

module _ {ℓ} (P : Db → Type ℓ) where
  pub keep_result :
      {A B : Type 0} (r : Result A) (db : Db) (f : A → Sql B)
      → P db
      → ((a : A) → Keeps P (f a))
      → P (bind_result r db f).1
  keep_result (ok a) db f p keeps = keeps a db p
  keep_result (err e) db f p keeps = p

  -- A method whose first part keeps `P`, and whose second does after each answer.
  pub keep_bind :
      {A B : Type 0} (m : Sql A) (f : A → Sql B)
      → Keeps P m
      → ((a : A) → Keeps P (f a))
      → Keeps P (m >>= f)
  keep_bind m f first second db p = keep_result (m db).0 (m db).1 f (first db p) second

-- What holds after a method, for its value or for its error.
abbrev pub After {ℓ} : {A : Type 0} → (A → Db → Type ℓ) → (Db → Type ℓ) → Result A → Db → Type ℓ
After Q R (ok a) db = Q a db
After Q R (err e) db = R db

module _ {ℓ} {A B : Type 0} (P R : Db → Type ℓ) (Q : A → Db → Type ℓ) (m : Sql A)
    (f : A → Sql B) where
  abbrev Second : Type ℓ
  Second = (a : A) (db : Db) → Q a db → R (f a db).1

  after_bind : (r : Result A) (db : Db) → After Q R r db → Second → R (bind_result r db f).1
  after_bind (ok a) db q second = second a db q
  after_bind (err e) db q second = q

  -- A first part which gives `Q` or fails with `R`, and a second which makes `R` of `Q`.
  pub ensure_bind :
      ((db : Db) → P db → After Q R (m db).0 (m db).1)
      → Second
      → (db : Db) → P db
      → R ((m >>= f) db).1
  ensure_bind first second db p = after_bind (m db).0 (m db).1 (first db p) second

-- A statement gives `Q` of `P`, or fails with `R`, where neither reads the outages.
module _ {ℓ} {A : Type 0} (P R : Db → Type ℓ) (Q : A → Db → Type ℓ) (run : Db → A × Db)
    (stays : (db : Db) (rest : List Bool) → P db → P (record db { outages = rest }))
    (gives : (db : Db) → P db → Q (run db).0 (run db).1) (fails : (db : Db) → P db → R db) where
  abbrev outcome : Db → List Bool → Result A × Db
  outcome db outages = elim outages [
    | [] ↦ let (a, db') = run db in (ok a, db')
    | down ∷ rest ↦
        let db' = record db { outages = rest } in
        if down then (err failed, db') else (ok (run db').0, (run db').1)
  ]

  outcome-After :
      (db : Db) (outages : List Bool)
      → P db
      → After Q R (outcome db outages).0 (outcome db outages).1
  outcome-After db [] p = gives db p
  outcome-After db (true ∷ rest) p = fails (record db { outages = rest }) (stays db rest p)
  outcome-After db (false ∷ rest) p = gives (record db { outages = rest }) (stays db rest p)

  pub ensure_statement : (db : Db) → P db → After Q R (statement run db).0 (statement run db).1
  unfolding statement
  ensure_statement db p = outcome-After db db.outages p

-- A guard that raises, before the rest.
pub ensure_guard {ℓ} :
    {A : Type 0} (P R : Db → Type ℓ) (refuse : Bool) (e : Error) (m : Sql A)
    → ((db : Db) → P db → R db)
    → ((db : Db) → P db → R (m db).1)
    → (db : Db) → P db
    → R ((if refuse then raise e else m) db).1
ensure_guard P R true e m fails passes = fails
ensure_guard P R false e m fails passes = passes
