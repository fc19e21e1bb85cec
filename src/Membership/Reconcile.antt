-- ===== src/Membership/Reconcile.antt =====
-- internal/membership/store.go: what a reconcile makes of a roster.
use talyvor_docs.Prelude.{
  ℕ, String, ◌≡◌, refl, Bool, true, false, not, ◌&&◌, List, [], ◌∷◌, arith, ◌==◌, Bool-cases, inl,
  inr, ◌∙◌, ◌⊎◌, length, map, any, eq_refl, select as filter,
}
use talyvor_docs.Postgres.Run.{Reply, ok, refused, failed, pure, write, ◌>>=◌, ◌>>◌}
use talyvor_docs.Postgres.Run.Keep.{Keeps, keep_pure, keep_bind, keep_write, kept}
use talyvor_docs.Membership.{
  Member, MemberRef, Tables, RosterError, Roster, is_member, renew, upsert_member, upsert_each,
  ref_email, is_departed, prune, restored, reconcile_workspace,
}

-- Whether the workspace has a member of the address, and one that the reconcile did not write.
abbrev pub has_member : String → String → List Member → Bool
has_member workspace email members = any (is_member workspace email) members

abbrev pub is_native : String → String → Member → Bool
is_native workspace email m = is_member workspace email m && not (m.source == "track")

abbrev pub has_native : String → String → List Member → Bool
has_native workspace email members = any (is_native workspace email) members

-- The members of the other workspaces.
module _ (workspace : String) (before : List Member) where
  abbrev outside : List Member → List Member
  outside members = filter (λ m. not (m.workspace_id == workspace)) members

  abbrev Same : Tables → Type 0
  Same t = outside t.members ≡ before

  outside-renew :
      (ref : MemberRef) (now : ℕ) (members : List Member)
      → outside (map (renew workspace ref now) members) ≡ outside members
  unfolding filter
  outside-renew ref now [] = refl
  outside-renew ref now (m ∷ members) = ground (arith, outside-renew ref now members)

  outside-prune :
      (emails : List String) (members : List Member)
      → outside (filter (λ m. not (is_departed workspace emails m)) members) ≡ outside members
  unfolding filter
  outside-prune emails [] = refl
  outside-prune emails (m ∷ members) = ground (arith, outside-prune emails members)

  upsert_member-Same :
      (ref : MemberRef) (t : Tables)
      → Same t
      → Same (record t { members = upsert_member workspace ref t.clock t.members })
  unfolding filter
  upsert_member-Same ref t same = elim (Bool-cases (has_member workspace ref.email t.members)) [
    | inl there ↦ rw there (outside-renew ref t.clock t.members ∙ same)
    | inr new ↦ rw (new, eq_refl workspace) same
  ]

  upsert_each-Same : (refs : List MemberRef) → Keeps Same (upsert_each workspace refs)
  unfolding upsert_each
  upsert_each-Same [] = keep_pure RosterError Same tt
  upsert_each-Same (ref ∷ refs) =
      keep_bind RosterError Same _ _ (keep_write RosterError Same _ (upsert_member-Same ref))
        (λ _. upsert_each-Same refs)

  abbrev body : List MemberRef → Roster (ℕ × ℕ)
  body refs = do
    upsert_each workspace refs
    pruned ← prune workspace (map ref_email refs)
    pure (length refs, pruned)

  body-Same : (refs : List MemberRef) → Keeps Same (body refs)
  unfolding prune
  body-Same refs = keep_bind RosterError Same _ _ (upsert_each-Same refs) λ _.
      keep_bind RosterError Same _ _
        (keep_write RosterError Same _
          (λ s same. outside-prune (map ref_email refs) s.members ∙ same))
        λ pruned. keep_pure RosterError Same {A = ℕ × ℕ} (length refs, pruned)

  abbrev inside : List MemberRef → Roster (ℕ × ℕ)
  inside refs = do write (λ s. (tt, s)); a ← body refs; write (λ s. (tt, s)); pure a

  inside-Same : (refs : List MemberRef) → Keeps Same (inside refs)
  inside-Same refs = keep_bind RosterError Same _ _ (keep_write RosterError Same _ (λ s h. h)) λ _.
      keep_bind RosterError Same _ _ (body-Same refs) λ a.
        keep_bind RosterError Same _ _ (keep_write RosterError Same _ (λ s h. h))
          (λ _. keep_pure RosterError Same a)

  restored-Same :
      {A : Type 0} (t t' : Tables) (r : Reply RosterError A) (down : List Bool)
      → Same t
      → Same t'
      → Same (restored t (r, t', down)).1
  restored-Same t t' (ok a) down same same' = same'
  restored-Same t t' (refused e) down same same' = same
  restored-Same t t' failed down same same' = same

abbrev pub is_ok : {A : Type 0} → Reply RosterError A → Bool
is_ok (ok a) = true
is_ok (refused e) = false
is_ok failed = false

restored-settled :
    {A : Type 0} (t t' : Tables) (r : Reply RosterError A) (down : List Bool)
    → (is_ok (restored t (r, t', down)).0 ≡ true) ⊎ ((restored t (r, t', down)).1 ≡ t)
restored-settled t t' (ok a) down = inl refl
restored-settled t t' (refused e) down = inr refl
restored-settled t t' failed down = inr refl

-- Whatever statements fail, a reconcile changes no member of another workspace; and of its own workspace it changes
-- none unless it succeeds.
pub reconcile_workspace_atomic :
    (workspace : String) (refs : List MemberRef) (t : Tables) (down : List Bool)
    → (let out = reconcile_workspace workspace refs t down in
        (filter (λ m. not (m.workspace_id == workspace)) out.1.members
          ≡ filter (λ m. not (m.workspace_id == workspace)) t.members)
        × ((is_ok out.0 ≡ true) ⊎ (out.1 ≡ t)))
unfolding reconcile_workspace
reconcile_workspace_atomic workspace [] t down = elim (Bool-cases (workspace == "")) [
  | inl unnamed ↦ rw unnamed (refl, inr refl)
  | inr named ↦ rw named (refl, inr refl)
]
reconcile_workspace_atomic workspace (ref ∷ rest) t down = elim (Bool-cases (workspace == "")) [
  | inl unnamed ↦ rw unnamed (refl, inr refl)
  | inr named ↦
      let before : List Member = filter (λ m. not (m.workspace_id == workspace)) t.members in
      let out : Reply RosterError (ℕ × ℕ) × Tables × List Bool =
        inside workspace before (ref ∷ rest) t down in
      rw named (
        restored-Same workspace before t out.1 out.0 out.2 refl (
            kept (Same workspace before) (inside workspace before (ref ∷ rest))
              (inside-Same workspace before (ref ∷ rest)) t down refl),
        restored-settled t out.1 out.0 out.2,
      )
]
