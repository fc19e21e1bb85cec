-- ===== src/Sharing.antt =====
-- internal/sharing/store.go: the public links of pages and their signed tokens. The hash of a token (an HMAC),
-- its base64 text, and the hash of a password (bcrypt) are parameters; a key, a hash and a text are all
-- strings here. A store has a pool, and the errors of an insert are those of the database.
pub mod Token
pub mod Visit
pub mod Tests
use Prim.Native.Char.{Char}
use Prim.Native.String.{◌++◌ as concat}
use text.Mathlib.Text.{starts_with}
use talyvor_docs.Prelude.{
  ℕ, zero, suc, ◌+◌, String, Bool, true, false, not, ◌&&◌, ◌||◌, Option, none, some, List, [], ◌∷◌,
  ◌==◌, if◌then◌else◌, eqb, ltb, select as filter,
}
use talyvor_docs.Postgres.Run.{
  Run, Reply, ok, refused, failed, pure, refuse, ◌>>=◌, ◌>>◌, statement, select, write,
}

-- ShareLink, and the row of share_links, whose `has_password` is not set.
pub record ShareLink : Type 0 where
  pub id : String
  pub page_id : String
  pub workspace_id : String
  pub token : String
  pub access : String
  pub expires_at : Option ℕ
  pub password_hash : Option String
  pub view_count : ℕ
  pub created_by : String
  pub created_at : ℕ
  pub has_password : Bool

-- share_links, and the clock of the server and the database
pub record Tables : Type 0 where
  pub links : List ShareLink
  pub clock : ℕ

pub data ShareError : Type 0 where
  not_allowed : String → ShareError
  no_signing_key no_token no_hash invalid_token no_rows expired password_required password_mismatch
        not_found :
      ShareError

abbrev pub Shares : Type 0 → Type 0
Shares A = Run Tables ShareError A

-- validShareAccess
abbrev pub valid_share_access : String → Bool
valid_share_access access = access == "view" || access == "comment"

abbrev pub signed_nonce_prefix : String
signed_nonce_prefix = "s1_"

abbrev pub share_key_label : String
share_key_label = "talyvor-docs share-token v1"

abbrev pub is_dot : Char → Bool
is_dot c = String.◌∷◌ c String.[] == "."

abbrev pub cut_after : Char → String × String × Bool → String × String × Bool
cut_after c (before, after, found) = (String.◌∷◌ c before, after, found)

-- strings.Cut(token, ".")
unfoldable pub cut : String → String × String × Bool
cut String.[] = ("", "", false)
cut (String.◌∷◌ c s) = let rest = cut s in if is_dot c then ("", s, true) else cut_after c rest

unfoldable pub find_token : String → List ShareLink → Option ShareLink
find_token token [] = none
find_token token (l ∷ links) = if l.token == token then some l else find_token token links

-- view_count = view_count + 1
unfoldable pub bump : String → List ShareLink → List ShareLink
bump id [] = []
bump id (l ∷ links) =
    (if l.id == id then record l { view_count = l.view_count + 1 } else l) ∷ bump id links

abbrev pub is_hash : Option String → Bool
is_hash none = false
is_hash (some h) = not (h == "")

-- `stripHash`
abbrev pub strip_hash : ShareLink → ShareLink
strip_hash l = record l { has_password = is_hash l.password_hash; password_hash = none }

-- The expiry of a link, at a time.
abbrev pub is_expired : Option ℕ → ℕ → Bool
is_expired none now = false
is_expired (some at) now = ltb at now

-- The bump of the view count, whose error is dropped.
unfoldable pub bump_views : String → Shares (Unit {0})
unfolding write bump
bump_views id t down =
    let (r, t', down') =
      write {E = ShareError} (λ t. (tt, record t { links = bump id t.links })) t down in
    (ok tt, t', down')

abbrev pub link_or : Option ShareLink → Shares ShareLink
link_or none = refuse no_rows
link_or (some l) = pure l

module _ (hmac : String → String → String) (encode : String → String)
    (decode : String → Option String) where
  -- `WithSigningSecret`: the key
  unfoldable pub with_signing_secret : String → Option String
  with_signing_secret secret = if secret == "" then none else some (hmac secret share_key_label)

  -- `sign`, under the key
  unfoldable pub sign : String → String → String
  sign key nonce = concat nonce (concat "." (encode (hmac key nonce)))

  abbrev pub checked : String → String → Option String → Option String
  checked key nonce none = none
  checked key nonce (some got) = if got == hmac key nonce then some nonce else none

  abbrev pub nonce_signed : Option String → String → String → Option String
  nonce_signed none nonce sig = none
  nonce_signed (some key) nonce sig = if nonce == "" then none else checked key nonce (decode sig)

  -- `nonceOf`
  unfoldable pub nonce_of : Option String → String → Option String
  unfolding cut
  nonce_of key token =
      let (nonce, sig, signed) = cut token in
      if signed
      then nonce_signed key nonce sig
      else if not (token == "") && not (starts_with token signed_nonce_prefix)
      then some token
      else none

  -- `present`
  unfoldable pub present : Option String → ShareLink → ShareLink
  unfolding sign
  present none l = l
  present (some key) l = record l { token = sign key l.token }

  module _ (hash_password : String → Option String)
      (compare_password : String → String → Bool) where
    abbrev pub hashed : String → Option (Option String)
    hashed password =
        if password == ""
        then some none
        else elim (hash_password password) [ none ↦ none | some h ↦ some (some h) ]

    -- INSERT INTO share_links … RETURNING …
    unfoldable pub insert_link : ShareLink → Shares ShareLink
    unfolding write
    insert_link l =
        write (λ t.
          let l' = record l { created_at = t.clock } in (l', record t { links = l' ∷ t.links }))

    abbrev pub new_link :
        String → String → String → String → Option ℕ → String → String → Option String → ShareLink
    new_link id page workspace access expires by nonce hash = record {
      id = id;
      page_id = page;
      workspace_id = workspace;
      token = nonce;
      access = access;
      expires_at = expires;
      password_hash = hash;
      view_count = 0;
      created_by = by;
      created_at = 0;
      has_password = false;
    }

    abbrev pub create_hashed :
        String
        → String
        → String
        → String
        → String
        → Option ℕ
        → String
        → String
        → Option (Option String)
        → Shares ShareLink
    create_hashed id page workspace by access expires key nonce none = refuse no_hash
    create_hashed id page workspace by access expires key nonce (some hash) = do
      link ← insert_link (new_link id page workspace access expires by nonce hash)
      pure (present (some key) (strip_hash link))

    abbrev pub create_keyed :
        Option String
        → Option String
        → String
        → String
        → String
        → String
        → String
        → Option ℕ
        → String
        → Shares ShareLink
    create_keyed none made id page workspace by access expires password = refuse no_signing_key
    create_keyed (some key) none id page workspace by access expires password = refuse no_token
    create_keyed (some key) (some nonce) id page workspace by access expires password =
        create_hashed id page workspace by access expires key nonce (hashed password)

    -- `Create`; the nonce is what `newNonce` gives, and the id what the database gives.
    unfoldable pub create :
        Option String
        → Option String
        → String
        → String
        → String
        → String
        → String
        → Option ℕ
        → String
        → Shares ShareLink
    unfolding insert_link present
    create key nonce id page workspace by access expires password =
        if not (valid_share_access access)
        then refuse (not_allowed access)
        else create_keyed key nonce id page workspace by access expires password

    -- The password's check of `Validate`, where the link has a hash.
    abbrev pub check_password : Option String → String → Shares (Unit {0})
    check_password none password = pure tt
    check_password (some h) password =
        if h == ""
        then pure tt
        else if password == ""
        then refuse password_required
        else if not (compare_password h password)
        then refuse password_mismatch
        else pure tt

    abbrev pub visit : ShareLink → ℕ → String → Shares ShareLink
    visit link now password =
        if is_expired link.expires_at now
        then refuse expired
        else (check_password link.password_hash password
            >> bump_views link.id
            >> pure (strip_hash link))

    abbrev pub lookup_link : String → String → Shares ShareLink
    lookup_link nonce password = do
      (row, now) ← select (λ t. (find_token nonce t.links, t.clock))
      link ← link_or row
      visit link now password

    abbrev pub validate_nonce : Option String → String → Shares ShareLink
    validate_nonce none password = refuse invalid_token
    validate_nonce (some nonce) password = lookup_link nonce password

    -- `Validate`
    unfoldable pub validate : Option String → String → String → Shares ShareLink
    unfolding nonce_of select find_token bump_views
    validate key token password = validate_nonce (nonce_of key token) password

    unfoldable pub presented : Option String → List ShareLink → List ShareLink
    unfolding present
    presented key [] = []
    presented key (l ∷ links) = present key (strip_hash l) ∷ presented key links

    -- `ListByPage`; the newest link comes first, as in the table.
    unfoldable pub list_by_page : Option String → String → Shares (List ShareLink)
    unfolding select presented
    list_by_page key page = select (λ t. presented key (filter (λ l. l.page_id == page) t.links))

    abbrev pub is_link : String → String → ShareLink → Bool
    is_link id page l = l.id == id && l.page_id == page

    abbrev pub affected : List ShareLink → Shares (Unit {0})
    affected [] = refuse not_found
    affected (l ∷ links) = pure tt

    -- `Revoke`
    unfoldable pub revoke : String → String → Shares (Unit {0})
    unfolding write
    revoke id page = do
      gone ← write (λ t. (
        filter (is_link id page) t.links,
        record t { links = filter (λ l. not (is_link id page l)) t.links },
      ))
      affected gone
