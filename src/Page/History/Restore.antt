-- ===== src/Page/History/Restore.antt =====
-- internal/page/store.go: `RestoreVersion` gives a page the text of a version back.
use talyvor_docs.Prelude.{
  ℕ, suc, String, ◌≡◌, refl, Bool, true, false, none, some, List, [], ◌∷◌, arith, ◌∙◌, eq_refl,
}
use talyvor_docs.Postgres.Run.{Reply, ok, refused, failed, statement, select, write}
use talyvor_docs.Page.{PageRow, VersionRow, Tables, PageError, find}
use talyvor_docs.Page.Create.{latest, append_version, insert_version, version_row}
use talyvor_docs.Page.Update.{
  Guard, check_guard, move_target, update, save, write_page, apply_updates, floor_content,
}
use talyvor_docs.Page.History.{find_version, get_version, restore_version, restore_updates}
use talyvor_docs.Page.Forest.Move.{find-at_page}

-- The guard lets the member "restore" edit the page.
abbrev pub allows : Guard → String → Bool
allows none page = true
allows (some g) page = elim (g page "restore" false) [
  | ok a ↦ a.0
  | refused e ↦ false
  | failed ↦ false
]

module _ (extract : String → String) (page : String) (t : Tables) where
  -- The row with the text of the version.
  abbrev pub restored : VersionRow → PageRow → PageRow
  restored v r = record r {
    title = v.title;
    content = floor_content v.content;
    content_text = extract (floor_content v.content);
    updated_by = "restore";
    updated_at = t.clock;
  }

  check_guard-allows :
      (guard : Guard)
      → allows guard page ≡ true
      → check_guard guard page "restore" false t [] ≡ (ok tt, t, [])
  unfolding check_guard
  check_guard-allows none may = refl
  check_guard-allows (some g) may = by_reply (g page "restore" false) may
    where
      by_reply :
          (r : Reply PageError (Bool × String))
          → elim r as (λ _. Bool) [ ok a ↦ a.0 | refused e ↦ false | failed ↦ false ] ≡ true
          → check_guard (some (λ _ _ _. r)) page "restore" false t [] ≡ (ok tt, t, [])
      by_reply (ok (true, reason)) may = refl
      by_reply (ok (false, reason)) may = absurd (ground (arith, may))
      by_reply (refused e) may = absurd (ground (arith, may))
      by_reply failed may = absurd (ground (arith, may))

  save_restored :
      (v : VersionRow) (r : PageRow)
      → find page t.pages ≡ some r
      → (let out = save extract page (restore_updates v) none none t [] in
          (out.0 ≡ ok (restored v r))
          × (find page out.1.pages ≡ some (restored v r))
          × (out.1.versions
              ≡ version_row page r.workspace_id v.title
                  (floor_content v.content)
                  "restore"
                  (suc (latest page t.versions))
                ∷ t.versions))
  unfolding save write_page statement apply_updates append_version insert_version write
  save_restored v r q = rw q (
    refl,
    find-at_page (apply_updates extract (restore_updates v) none t.clock) (λ s. refl)
          (λ s. (refl, refl)) page t.pages page
        ∙ rw (q, eq_refl page) refl,
    refl,
  )

  -- `RestoreVersion`, where the version and the page are there, the guard allows the edit and no statement
  -- fails, gives the page the title and the content of the version, answers with that row, and adds a version
  -- with that text and the next number. The empty content is stored as an empty document.
  pub restore_version-restored :
      (guard : Guard) (n : ℕ) (workspaces : List String) (v : VersionRow) (r : PageRow)
      → find_version page n workspaces t.versions ≡ some v
      → find page t.pages ≡ some r
      → allows guard page ≡ true
      → (let out = restore_version extract guard page n workspaces t [] in
          (out.0 ≡ ok (restored v r))
          × (find page out.1.pages ≡ some (restored v r))
          × (out.1.versions
              ≡ version_row page r.workspace_id v.title
                  (floor_content v.content)
                  "restore"
                  (suc (latest page t.versions))
                ∷ t.versions))
  unfolding restore_version get_version select statement update move_target
  restore_version-restored guard n workspaces v r found q may =
      rw (found, check_guard-allows guard may) (save_restored v r q)
