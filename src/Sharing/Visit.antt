-- ===== src/Sharing/Visit.antt =====
-- From a new link to its visits.
use talyvor_docs.Prelude.{
  ℕ, String, ◌≡◌, refl, Bool, true, false, not, ◌&&◌, ◌||◌, Option, none, some, List, [], ◌∷◌,
  arith, ◌==◌, eq_refl, if◌then◌else◌, Bool-cases, inl, inr, ◌⊎◌,
}
use talyvor_docs.Postgres.Run.{ok, refused, pure, refuse, ◌>>=◌, select, write, statement}
use talyvor_docs.Sharing.{
  ShareLink, Tables, ShareError, Shares, valid_share_access, find_token, strip_hash, nonce_of,
  present, insert_link, new_link, create_hashed, create, is_expired, check_password,
  password_required, password_mismatch, expired, bump_views, link_or, visit, lookup_link, validate,
  validate_nonce,
}
use talyvor_docs.Sharing.Token.{has_dot, nonce_of-sign}

-- What the password has to be, where the link has a hash.
abbrev pub password_ok : (String → String → Bool) → Option String → String → Bool
password_ok compare none password = true
password_ok compare (some h) password = h == "" || (not (password == "") && compare h password)

abbrev pub admits : (String → String → Bool) → ShareLink → ℕ → String → Bool
admits compare row now password =
    not (is_expired row.expires_at now) && password_ok compare row.password_hash password

module _ (hmac : String → String → String) (encode : String → String)
    (decode : String → Option String) (hash_password : String → Option String)
    (compare_password : String → String → Bool) where
  abbrev check : Option String → String → Shares (Unit {0})
  check = check_password hmac encode decode hash_password compare_password

  check_at :
      (empty missing same : Bool) (t : Tables) (down : List Bool)
      → (let run =
            (if empty
                then pure tt
                else if missing
                then refuse password_required
                else if not same
                then refuse password_mismatch
                else pure tt)
              t down in
          ((run ≡ (ok tt, t, down)) × ((empty || (not missing && same)) ≡ true))
          ⊎ (((empty || (not missing && same)) ≡ false)
              × (e : ShareError) × (run ≡ (refused e, t, down))))
  check_at true missing same t down = inl (refl, refl)
  check_at false true same t down = inr (refl, password_required, refl)
  check_at false false true t down = inl (refl, refl)
  check_at false false false t down = inr (refl, password_mismatch, refl)

  check-cases :
      (h : Option String) (password : String) (t : Tables) (down : List Bool)
      → ((check h password t down ≡ (ok tt, t, down))
          × (password_ok compare_password h password ≡ true))
        ⊎ ((password_ok compare_password h password ≡ false)
            × (e : ShareError) × (check h password t down ≡ (refused e, t, down)))
  check-cases none password t down = inl (refl, refl)
  check-cases (some h) password t down =
      check_at (h == "") (password == "") (compare_password h password) t down

  abbrev visited : ShareLink → ℕ → String → Shares ShareLink
  visited = visit hmac encode decode hash_password compare_password

  -- A visit succeeds just when the link admits it, whatever statement fails.
  visit-cases :
      (row : ShareLink) (now : ℕ) (password : String) (t : Tables) (down : List Bool)
      → (((visited row now password t down).0 ≡ ok (strip_hash row))
          × (admits compare_password row now password ≡ true))
        ⊎ ((admits compare_password row now password ≡ false)
            × (e : ShareError) × (visited row now password t down ≡ (refused e, t, down)))
  unfolding bump_views
  visit-cases row now password t down = elim (Bool-cases (is_expired row.expires_at now)) [
    | inl late ↦ rw late (inr (refl, expired, refl))
    | inr early ↦ elim (check-cases row.password_hash password t down) [
      | inl (runs, good) ↦ rw (early, runs, good) (inl (refl, refl))
      | inr (bad, e, runs) ↦ rw (early, runs, bad) (inr (refl, e, refl))
    ]
  ]

  visit_admitted :
      (row : ShareLink) (now : ℕ) (password : String) (t : Tables)
      → admits compare_password row now password ≡ true
      → (visited row now password t []).0 ≡ ok (strip_hash row)
  visit_admitted row now password t good = elim (visit-cases row now password t []) [
    | inl (runs, same) ↦ runs
    | inr (bad, e, runs) ↦ absurd (ground (arith, good, bad))
  ]

  abbrev Admitted : Tables → String → String → ShareLink → Type 0
  Admitted t nonce password link =
      (row : ShareLink) × (find_token nonce t.links ≡ some row)
      × (admits compare_password row t.clock password ≡ true)
      × (link ≡ strip_hash row)

  found-Admitted :
      (nonce password : String) (t : Tables) (down : List Bool) (link : ShareLink)
      (row : Option ShareLink)
      → find_token nonce t.links ≡ row
      → ((link_or row >>= λ l. visited l t.clock password) t down).0 ≡ ok link
      → Admitted t nonce password link
  found-Admitted nonce password t down link none = λ q e. absurd (ground (arith, e))
  found-Admitted nonce password t down link (some row) = λ q e.
      elim (visit-cases row t.clock password t down) [
        | inl (runs, good) ↦ (row, q, good, ground (arith, e, runs))
        | inr (bad, err, runs) ↦ absurd (ground (arith, e, runs))
      ]

  lookup-Admitted :
      (nonce password : String) (t : Tables) (down : List Bool) (link : ShareLink)
      → (lookup_link hmac encode decode hash_password compare_password nonce password t down).0
        ≡ ok link
      → Admitted t nonce password link
  unfolding select statement
  lookup-Admitted nonce password t [] link e =
      found-Admitted nonce password t [] link (find_token nonce t.links) refl e
  lookup-Admitted nonce password t (true ∷ down) link e = absurd (ground (arith, e))
  lookup-Admitted nonce password t (false ∷ down) link e =
      found-Admitted nonce password t down link (find_token nonce t.links) refl e

  validate_at :
      (nonce : Option String) (password : String) (t : Tables) (down : List Bool) (link : ShareLink)
      → (validate_nonce hmac encode decode hash_password compare_password nonce password t down).0
        ≡ ok link
      → (n : String) × (nonce ≡ some n) × Admitted t n password link
  validate_at none password t down link e = absurd (ground (arith, e))
  validate_at (some n) password t down link e = (n, refl, lookup-Admitted n password t down link e)

  -- `Validate` gives a link only for a token that `nonceOf` accepts, whose link is in the table, has not expired,
  -- and whose password is right where the link has one; the hash is not given away. This holds whatever
  -- statement fails.
  pub validate-admits :
      (key : Option String) (token password : String) (t : Tables) (down : List Bool)
      (link : ShareLink)
      → (validate hmac encode decode hash_password compare_password key token password t down).0
        ≡ ok link
      → (nonce : String) × (nonce_of hmac encode decode key token ≡ some nonce)
        × (row : ShareLink) × (find_token nonce t.links ≡ some row)
        × (admits compare_password row t.clock password ≡ true)
        × (link ≡ strip_hash row)
  unfolding validate
  validate-admits key token password t down link e =
      let (nonce, accepted, (row, found, good, stripped)) =
        validate_at (nonce_of hmac encode decode key token) password t down link e in
      (nonce, accepted, row, found, good, stripped)

  visit_made :
      (key nonce id page workspace by access password : String) (expires : Option ℕ) (t : Tables)
      (now : ℕ) (hash : Option String)
      → has_dot nonce ≡ false
      → (nonce == "") ≡ false
      → decode (encode (hmac key nonce)) ≡ some (hmac key nonce)
      → is_expired expires now ≡ false
      → password_ok compare_password hash password ≡ true
      → (let made =
            create_hashed hmac encode decode hash_password compare_password id page workspace by
              access expires key nonce
              (some hash)
              t
              [] in
          (link : ShareLink) × (made.0 ≡ ok link)
          × ((validate hmac encode decode hash_password compare_password
                (some key)
                link.token
                password
                (record made.1 { clock = now })
                []).0
              ≡ ok (record link { token = nonce })))
  unfolding insert_link present validate write select statement find_token bump_views
  visit_made key nonce id page workspace by access password expires t now hash plain given decodes
        early good =
      let row : ShareLink =
        record (new_link hmac encode decode hash_password compare_password id page workspace access
          expires by nonce hash) { created_at = t.clock } in
      (
        present hmac encode decode (some key) (strip_hash row),
        refl,
        rw (nonce_of-sign hmac encode decode key nonce plain given decodes, eq_refl nonce)
            (visit_admitted row now password (record t { links = row ∷ t.links; clock = now })
              (rw (early, good) refl)),
      )

  -- A link that `Create` made is there for its visitors: under the token that it gave, with the password, and
  -- before the link expires, `Validate` gives the link. No statement fails; the nonce is not empty and has no
  -- dot, the base64 decoder reads what the encoder wrote, and bcrypt recognises the password that it hashed.
  pub validate-create :
      (key nonce id page workspace by access password h : String) (expires : Option ℕ) (t : Tables)
      (now : ℕ)
      → valid_share_access access ≡ true
      → has_dot nonce ≡ false
      → (nonce == "") ≡ false
      → decode (encode (hmac key nonce)) ≡ some (hmac key nonce)
      → hash_password password ≡ some h
      → compare_password h password ≡ true
      → is_expired expires now ≡ false
      → (let made =
            create hmac encode decode hash_password compare_password
              (some key)
              (some nonce)
              id
              page
              workspace
              by
              access
              expires
              password
              t
              [] in
          (link : ShareLink) × (made.0 ≡ ok link)
          × ((validate hmac encode decode hash_password compare_password
                (some key)
                link.token
                password
                (record made.1 { clock = now })
                []).0
              ≡ ok (record link { token = nonce })))
  unfolding create
  validate-create key nonce id page workspace by access password h expires t now valid plain given
        decodes hashes same early =
      elim (Bool-cases (password == "")) [
        | inl bare ↦
            rw (valid, bare)
              (visit_made key nonce id page workspace by access password expires t now none plain
                given decodes early refl)
        | inr secret ↦
            rw (valid, secret, hashes)
              (visit_made key nonce id page workspace by access password expires t now (some h)
                plain given decodes early (ground (arith, secret, same)))
      ]
