-- ===== src/Sharing/Tests.antt =====
-- The theorems of the share links with small functions for the hashes.
use Prim.Native.String.{◌++◌ as concat}
use talyvor_docs.Prelude.{String, ◌≡◌, refl, Bool, true, false, some, [], ◌∷◌, ◌==◌}
use talyvor_docs.Postgres.Run.{ok}
use talyvor_docs.Sharing.{
  ShareLink, cut, Tables, nonce_of, create, validate, find_token, strip_hash,
}
use talyvor_docs.Sharing.Visit.{admits, validate-admits, validate-create}

abbrev hmac : String → String → String
hmac key nonce = concat key nonce

abbrev same_text : String → String → Bool
same_text h password = h == password

abbrev no_links : Tables
no_links = record { links = []; clock = 5 }

abbrev linked : ShareLink
linked = record {
  id = "l";
  page_id = "p";
  workspace_id = "w";
  token = "s1_ab";
  access = "view";
  expires_at = some 9;
  password_hash = some "pw";
  view_count = 0;
  created_by = "ada";
  created_at = 5;
  has_password = false;
}

abbrev token : String
token = "s1_ab.ks1_ab"

validate-admits_example :
    (nonce : String) × (nonce_of hmac (λ m. m) some (some "k") token ≡ some nonce)
    × (row : ShareLink) × (find_token nonce (linked ∷ []) ≡ some row)
    × (admits same_text row 5 "pw" ≡ true)
    × (strip_hash linked ≡ strip_hash row)
unfolding validate
validate-admits_example =
    validate-admits hmac (λ m. m) some some same_text (some "k") token "pw"
      (record no_links { links = linked ∷ [] }) (false ∷ true ∷ []) (strip_hash linked) refl

validate-create_example :
    (let made =
        create hmac
          (λ m. m)
          some
          some
          same_text
          (some "k")
          (some "s1_ab")
          "l"
          "p"
          "w"
          "ada"
          "view"
          (some 9)
          "pw"
          no_links
          [] in
      (link : ShareLink) × (made.0 ≡ ok link)
      × ((validate hmac
            (λ m. m)
            some
            some
            same_text
            (some "k")
            link.token
            "pw"
            (record made.1 { clock = 8 })
            []).0
          ≡ ok (record link { token = "s1_ab" })))
unfolding cut
validate-create_example =
    validate-create hmac (λ m. m) some some same_text "k" "s1_ab" "l" "p" "w" "ada" "view" "pw" "pw"
      (some 9) no_links 8 refl refl refl refl refl refl refl
