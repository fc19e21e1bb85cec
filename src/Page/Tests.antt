-- ===== src/Page/Tests.antt =====
-- The theorems of the pages at a small table: a page, its child, and the child's child.
use talyvor_docs.Prelude.{
  ℕ, String, ◌≡◌, refl, false, ◌||◌, Option, none, some, [], ◌∷◌, arith, ◌==◌, eq_iff,
}
use talyvor_docs.Postgres.Run.{ok}
use talyvor_docs.Postgres.Tables.{among}
use talyvor_docs.Page.{PageRow, VersionRow, Tables, find}
use talyvor_docs.Page.Create.{create, latest, version_row}
use talyvor_docs.Page.Update.{Updates, Guard, update}
use talyvor_docs.Page.History.{no_updates, find_version, restore_version}
use talyvor_docs.Page.History.Keep.{update-find_version}
use talyvor_docs.Page.History.Restore.{restored, restore_version-restored}
use talyvor_docs.Page.Forest.{IsForest}
use talyvor_docs.Page.Forest.Save.{update-IsForest}
use talyvor_docs.Page.Forest.Insert.{create-IsForest}

abbrev pub page_row : String → Option String → ℕ → PageRow
page_row id parent depth = record {
  id = id;
  space_id = "s";
  workspace_id = "w";
  parent_id = parent;
  title = id;
  slug = id;
  content = "{}";
  content_text = "";
  icon = "";
  cover_url = "";
  position = 0;
  depth = depth;
  is_template = false;
  created_by = "ada";
  updated_by = "ada";
  linked_issues = [];
  stale_after_days = 0;
  page_type = "document";
  last_verified_at = none;
  verified_by = none;
  updated_at = 0;
}

abbrev first_version : VersionRow
first_version = record {
  page_id = "b";
  workspace_id = "w";
  version = 1;
  title = "old";
  content = "{1}";
  created_by = "ada";
}

abbrev small : Tables
small = record {
  pages = page_row "a" none 0 ∷ page_row "b" (some "a") 1 ∷ page_row "c" (some "b") 2 ∷ [];
  versions = first_version ∷ [];
  clock = 9;
}

-- A guard that lets only "ada" edit.
abbrev ada_only : Guard
ada_only = some (λ page member admin. ok (member == "ada" || admin, "held by ada"))

abbrev to_top : Updates
to_top = record no_updates { parent_id = some none; title = some "new"; updated_by = some "ada" }

small-IsForest : IsForest small.pages
unfolding find
small-IsForest x = ground (arith, eq_iff "a" x, eq_iff "b" x, eq_iff "c" x)

-- The move gives the child's child the depth 1.
to_top_depths :
    (update (λ c. c) ada_only "b" to_top small []).1.pages
    ≡ page_row "a" none 0
      ∷ record (page_row "b" none 0) { title = "new"; updated_at = 9 }
      ∷ page_row "c" (some "b") 1
      ∷ []
unfolding update find
to_top_depths = refl

-- A page cannot go below its own child.
below_child :
    (update (λ c. c) none "b" (record no_updates { parent_id = some (some "c") }) small []).1
    ≡ small
unfolding update find
below_child = refl

update-IsForest_example : IsForest (update (λ c. c) ada_only "b" to_top small []).1.pages
update-IsForest_example = update-IsForest (λ c. c) ada_only "b" to_top small small-IsForest

create-IsForest_example :
    IsForest (create (λ c. c) (λ title. title) (page_row "d" (some "c") 0) small []).1.pages
unfolding find
create-IsForest_example =
    create-IsForest (λ c. c) (λ title. title) (page_row "d" (some "c") 0) small refl refl
      small-IsForest

update-find_version_example :
    find_version "b" 1 ("w" ∷ []) (update (λ c. c) ada_only "b" to_top small []).1.versions
    ≡ some first_version
unfolding find_version among
update-find_version_example =
    update-find_version (λ c. c) ada_only "b" to_top small [] "b" 1 ("w" ∷ []) first_version refl

abbrev back : PageRow
back = restored (λ c. c) "b" small first_version (page_row "b" (some "a") 1)

restore_version-restored_example :
    (let out = restore_version (λ c. c) none "b" 1 ("w" ∷ []) small [] in
      (out.0 ≡ ok back)
      × (find "b" out.1.pages ≡ some back)
      × (out.1.versions ≡ version_row "b" "w" "old" "{1}" "restore" 2 ∷ small.versions))
unfolding find find_version latest among
restore_version-restored_example =
    restore_version-restored (λ c. c) "b" small none 1 ("w" ∷ []) first_version
      (page_row "b" (some "a") 1) refl refl refl
