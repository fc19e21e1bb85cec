-- ===== src/Gateway/Passes.antt =====
-- internal/gatewayauth, internal/authz and internal/membership together: who reaches a handler, and as whom.
use talyvor_docs.Prelude.{
  String, ◌≡◌, refl, Bool, true, false, Option, none, some, List, arith, ◌==◌, Bool-cases, inl, inr,
  ◌⊎◌, select as filter,
}
use talyvor_docs.Postgres.Run.{Reply, ok, refused, failed, select}
use talyvor_docs.Authz.{Membership, Context, with_memberships}
use talyvor_docs.Membership.{Tables, RosterError, memberships_by_email}
use talyvor_docs.Gateway.{
  Request, Identity, serves, identity_of, exempt_transit_proof, exempt_membership, authz_middleware,
  identified, resolved, gateway_middleware, serve,
}

module _ (sha256 : String → String) (secret : String) (request : Request) where
  abbrev address : String
  address = request.header "X-User-Email"

  -- What a request shows that passes the membership middleware with an identity.
  abbrev pub Resolved : Tables → List Bool → Context → Type 0
  Resolved t down ctx =
      ((address == "") ≡ false)
      × ((ms : List Membership) × ((memberships_by_email address t down).0 ≡ ok ms)
          × (ctx ≡ with_memberships address ms))

  resolved-Resolved :
      (t : Tables) (down : List Bool) (id : Option Identity) (ctx : Context)
      (r : Reply RosterError (List Membership))
      → (memberships_by_email address t down).0 ≡ r
      → (address == "") ≡ false
      → resolved (identity_of request.header) r ≡ serves id ctx
      → (id ≡ some (identity_of request.header)) × Resolved t down ctx
  resolved-Resolved t down id ctx (ok ms) read named h =
      (ground (arith, h), (named, (ms, read, ground (arith, h))))
  resolved-Resolved t down id ctx (refused e) read named h = absurd (ground (arith, h))
  resolved-Resolved t down id ctx failed read named h = absurd (ground (arith, h))

  identified-Resolved :
      (t : Tables) (down : List Bool) (id : Option Identity) (ctx : Context)
      → identified (some (identity_of request.header)) t down ≡ serves id ctx
      → (id ≡ some (identity_of request.header)) × Resolved t down ctx
  identified-Resolved t down id ctx h = elim (Bool-cases (address == "")) [
    | inl empty ↦ absurd (ground (arith, h, empty))
    | inr named ↦
        resolved-Resolved t down id ctx (memberships_by_email address t down).0 refl named
          (ground (arith, h, named))
  ]

  -- A request outside the public lane reaches a handler only if a secret is set and the request's proof has its digest;
  -- the handler then finds the identity that the headers name. Outside the service lane it has the memberships that
  -- the roster holds for that address, which is not empty, and in the service lane it has none. This holds also where
  -- the read of the roster fails.
  pub serve_passes :
      (t : Tables) (down : List Bool) (id : Option Identity) (ctx : Context)
      → exempt_transit_proof request.path ≡ false
      → serve sha256 secret request t down ≡ serves id ctx
      → ((secret == "") ≡ false)
        × ((sha256 (request.header "X-Gateway-Auth") == sha256 secret) ≡ true)
        × (id ≡ some (identity_of request.header))
        × (((exempt_membership request.path ≡ true) × (ctx ≡ none)) ⊎ Resolved t down ctx)
  unfolding serve gateway_middleware authz_middleware
  serve_passes t down id ctx private h = elim (Bool-cases (secret == "")) [
    | inl unset ↦ absurd (ground (arith, h, private, unset))
    | inr set ↦ elim (Bool-cases (sha256 (request.header "X-Gateway-Auth") == sha256 secret)) [
      | inr wrong ↦ absurd (ground (arith, h, private, set, wrong))
      | inl right ↦ elim (Bool-cases (exempt_membership request.path)) [
        | inl service ↦
            let e : serves (some (identity_of request.header)) none ≡ serves id ctx =
              ground (arith, h, private, set, right, service) in
            (set, right, ground (arith, e), inl (service, ground (arith, e)))
        | inr member ↦
            let (who, shown) =
              identified-Resolved t down id ctx (ground (arith, h, private, set, right, member)) in
            (set, right, who, inr shown)
      ]
    ]
  ]
