-- ===== src/Page/History/Append.antt =====
-- What `Update` does to the versions, whatever statements fail.
use talyvor_docs.Prelude.{
  ℕ, suc, ◌+◌, String, ◌≡◌, refl, Bool, true, false, not, ◌||◌, Option, none, some, List, ◌∷◌, ◌==◌,
  if◌then◌else◌, ltb, Bool-cases, inl, inr, ◌⊎◌,
}
use talyvor_docs.Postgres.Run.{
  Reply, ok, refused, failed, pure, refuse, select, write, After, Ensures, ensure_bind,
  ensure_statement, ensure_guard, ◌>>=◌, ◌>>◌,
}
use talyvor_docs.Page.{
  PageRow, VersionRow, Tables, PageError, locked, parent_not_found, parent_cycle, max_depth, find,
  update_all, Pages, max_depth_limit,
}
use talyvor_docs.Page.Create.{latest, append_version, insert_version, version_row, valid_type}
use talyvor_docs.Page.Tree.{rel, height, is_some, rebase}
use talyvor_docs.Page.Update.{
  Guard, Updates, answer, check_guard, parent_checks, depth_checks, measured_target, apart_target,
  answered_target, same_workspace, depth_of, move_target, has, update, save, write_page,
  apply_updates, or_else, rebase_if, rebase_subtree_depth, checked_type, stored_type, is_empty,
  get_by_id, row_or, with_depth, returning, at_page,
}

module _ (page : String) (before : List VersionRow) where
  -- The versions as before, or one more of the page at the head, with the next number.
  abbrev pub OneMore : Tables → Type 0
  OneMore t =
      (t.versions ≡ before)
      ⊎ ((v : VersionRow) × (t.versions ≡ v ∷ before)
          × (v.page_id ≡ page)
          × (v.version ≡ suc (latest page before)))

  abbrev Same : Tables → Type 0
  Same t = t.versions ≡ before

  answer-Same :
      (r : Reply PageError (Bool × String))
      → Ensures Same
          (answer r >>= λ a. if a.0 then pure tt else refuse (locked a.1))
          (λ _. Same)
          OneMore
  answer-Same (ok (true, reason)) t down same = same
  answer-Same (ok (false, reason)) t down same = inl same
  answer-Same (refused e) t down same = inl same
  answer-Same failed t down same = inl same

  check_guard-Same :
      (guard : Guard) (asked member : String) (admin : Bool)
      → Ensures Same (check_guard guard asked member admin) (λ _. Same) OneMore
  unfolding check_guard
  check_guard-Same none asked member admin t down same = same
  check_guard-Same (some g) asked member admin t down same =
      answer-Same (g asked member admin) t down same

  select-Same :
      {A : Type 0} (read : Tables → A)
      → Ensures {E = PageError} Same (select read) (λ _. Same) OneMore
  unfolding select
  select-Same read =
      ensure_statement OneMore Same (λ _. Same) (λ t. (ok (read t), t)) (λ t same. same)
        (λ t same. inl same)

  measured-Same : (b : ℕ × ℕ) → Ensures Same (measured_target b) (λ _. Same) OneMore
  measured-Same b =
      ensure_guard OneMore Same (λ _. Same) (ltb max_depth_limit (b.0 + 1 + b.1)) max_depth
        (pure (some (b.0 + 1))) (λ t same. inl same) (λ t down same. same)

  depth_checks-Same : (asked up : String) → Ensures Same (depth_checks asked up) (λ _. Same) OneMore
  unfolding depth_checks
  depth_checks-Same asked up =
      select-Same λ t. (depth_of (find up t.pages), height (rel (λ x. x == asked) t.pages) t.pages)

  parent_checks-Same :
      (asked up : String) → Ensures Same (parent_checks asked up) (λ _. Same) OneMore
  unfolding parent_checks
  parent_checks-Same asked up = select-Same λ t. (
    same_workspace (find up t.pages) (find asked t.pages),
    is_some (rel (λ x. x == asked) t.pages up),
  )

  answered-Same :
      (asked up : String) (a : Bool × Bool)
      → Ensures Same (answered_target asked up a) (λ _. Same) OneMore
  answered-Same asked up a =
      ensure_guard OneMore Same (λ _. Same) (not a.0) parent_not_found (apart_target asked up a)
        (λ t same. inl same)
        (ensure_guard OneMore Same (λ _. Same) a.1 parent_cycle
          (depth_checks asked up >>= measured_target) (λ t same. inl same)
          (ensure_bind OneMore Same (λ _. Same) (λ _. Same) (depth_checks asked up) measured_target
            (depth_checks-Same asked up) measured-Same))

  move_target-Same :
      (asked : String) (parent : Option (Option String))
      → Ensures Same (move_target asked parent) (λ _. Same) OneMore
  unfolding move_target
  move_target-Same asked none = λ t down same. same
  move_target-Same asked (some none) = λ t down same. same
  move_target-Same asked (some (some up)) =
      ensure_bind OneMore Same (λ _. Same) (λ _. Same) (parent_checks asked up)
        (answered_target asked up) (parent_checks-Same asked up) (answered-Same asked up)

  stored_type-Same :
      (v : String) (page_type : Option String)
      → Ensures Same (stored_type v page_type) (λ _. Same) OneMore
  stored_type-Same v none t down same = inl same
  stored_type-Same v (some page_type) t down same = same

  checked_type-Same : (v : Option String) → Ensures Same (checked_type v) (λ _. Same) OneMore
  checked_type-Same none t down same = same
  checked_type-Same (some v) t down same = stored_type-Same v (valid_type v) t down same

  row_or-OneMore : (row : Option PageRow) → Ensures Same (row_or row) (λ _. OneMore) OneMore
  row_or-OneMore none t down same = inl same
  row_or-OneMore (some r) t down same = inl same

  get_by_id-OneMore : Ensures Same (get_by_id page) (λ _. OneMore) OneMore
  unfolding get_by_id
  get_by_id-OneMore =
      ensure_bind OneMore Same (λ _. Same) (λ _. OneMore) (select (λ t. find page t.pages)) row_or
        (select-Same _) row_or-OneMore

  insert_version-OneMore :
      (workspace title content by : String)
      → Ensures Same (insert_version page workspace title content by) (λ _. OneMore) OneMore
  unfolding insert_version write
  insert_version-OneMore workspace title content by =
      ensure_statement OneMore Same (λ _. OneMore)
        (λ t. (
          ok tt,
          record t {
            versions =
                version_row page workspace title content by (suc (latest page t.versions))
                ∷ t.versions;
          },
        ))
        (λ t same. inr (
          version_row page workspace title content by (suc (latest page before)),
          rw same refl,
          refl,
          refl,
        ))
        (λ t same. inl same)

  reply_OneMore :
      (r : Reply PageError (Unit {0})) (t : Tables) → After (λ _. OneMore) OneMore r t → OneMore t
  reply_OneMore (ok a) t p = p
  reply_OneMore (refused e) t p = p
  reply_OneMore failed t p = p

  append_version-OneMore :
      (workspace title content by : String)
      → Ensures Same (append_version page workspace title content by) (λ _. OneMore) OneMore
  unfolding append_version
  append_version-OneMore workspace title content by t down same =
      let run = insert_version page workspace title content by t down in
      reply_OneMore run.0 run.1 (insert_version-OneMore workspace title content by t down same)

module _ (extract : String → String) (guard : Guard) (page : String) (u : Updates)
    (before : List VersionRow) where
  abbrev with_version : PageRow → Pages (Unit {0})
  with_version out =
      if has u.content || has u.title
      then append_version page out.workspace_id out.title out.content (or_else u.updated_by "")
      else pure tt

  with_version-OneMore :
      (out : PageRow)
      → Ensures
          (Same page before)
          (with_version out)
          (λ _. OneMore page before)
          (OneMore page before)
  with_version-OneMore out t down same = elim (Bool-cases (has u.content || has u.title)) [
    | inl changed ↦ rw changed (
        append_version-OneMore page before out.workspace_id out.title out.content
          (or_else u.updated_by "") t down same)
    | inr other ↦ rw other (inl same)
  ]

  rebase_if-Same :
      (depth : Option ℕ)
      → Ensures
          (Same page before)
          (rebase_if page depth)
          (λ _. Same page before)
          (OneMore page before)
  unfolding rebase_subtree_depth write
  rebase_if-Same none t down same = same
  rebase_if-Same (some base) t down same =
      ensure_statement (OneMore page before) (Same page before) (λ _. Same page before)
        (λ t. (ok tt, record t { pages = rebase (λ x. x == page) base t.pages })) (λ t same. same)
        (λ t same. inl same) t down same

  returning-Same :
      (row : Option PageRow) (f : PageRow → PageRow) (t : Tables)
      → Same page before t
      → After (λ _. Same page before) (OneMore page before) (returning row f) t
  returning-Same none f t same = inl same
  returning-Same (some r) f t same = same

  write_page-Same :
      (f : ℕ → PageRow → PageRow)
      → Ensures (Same page before) (write_page page f) (λ _. Same page before) (OneMore page before)
  unfolding write_page
  write_page-Same f =
      ensure_statement (OneMore page before) (Same page before) (λ _. Same page before)
        (λ t. (
          returning (find page t.pages) (f t.clock),
          record t { pages = update_all (at_page page (f t.clock)) t.pages },
        ))
        (λ t same.
          returning-Same (find page t.pages) (f t.clock)
            (record t { pages = update_all (at_page page (f t.clock)) t.pages }) same)
        (λ t same. inl same)

  save-OneMore :
      (depth : Option ℕ) (page_type : Option String)
      → Ensures
          (Same page before)
          (save extract page u depth page_type)
          (λ _. OneMore page before)
          (OneMore page before)
  unfolding save
  save-OneMore depth page_type =
      ensure_bind (OneMore page before) (Same page before) (λ _. Same page before)
        (λ _. OneMore page before) (write_page page (apply_updates extract u page_type))
        (λ out. rebase_if page depth >> (with_version out >> pure (with_depth depth out)))
        (write_page-Same (apply_updates extract u page_type))
        (λ out.
          ensure_bind (OneMore page before) (Same page before) (λ _. Same page before)
            (λ _. OneMore page before) (rebase_if page depth)
            (λ _. with_version out >> pure (with_depth depth out)) (rebase_if-Same depth)
            (λ _.
              ensure_bind (OneMore page before) (Same page before) (λ _. OneMore page before)
                (λ _. OneMore page before) (with_version out) (λ _. pure (with_depth depth out))
                (with_version-OneMore out) (λ _ t down more. more)))

  abbrev last_steps : Option ℕ → Option String → Pages PageRow
  last_steps depth page_type =
      if is_empty u then get_by_id page else save extract page u depth page_type

  last_steps-OneMore :
      (depth : Option ℕ) (page_type : Option String)
      → Ensures
          (Same page before)
          (last_steps depth page_type)
          (λ _. OneMore page before)
          (OneMore page before)
  last_steps-OneMore depth page_type t down same = elim (Bool-cases (is_empty u)) [
    | inl empty ↦ rw empty (get_by_id-OneMore page before t down same)
    | inr other ↦ rw other (save-OneMore depth page_type t down same)
  ]

  pub update-OneMore :
      Ensures
        (Same page before)
        (update extract guard page u)
        (λ _. OneMore page before)
        (OneMore page before)
  unfolding update
  update-OneMore =
      ensure_bind (OneMore page before) (Same page before) (λ _. Same page before)
        (λ _. OneMore page before) (check_guard guard page (or_else u.updated_by "") u.is_admin)
        (λ _.
          move_target page u.parent_id >>= λ depth. checked_type u.page_type >>= last_steps depth)
        (check_guard-Same page before guard page (or_else u.updated_by "") u.is_admin)
        (λ _.
          ensure_bind (OneMore page before) (Same page before) (λ _. Same page before)
            (λ _. OneMore page before) (move_target page u.parent_id)
            (λ depth. checked_type u.page_type >>= last_steps depth)
            (move_target-Same page before page u.parent_id)
            (λ depth.
              ensure_bind (OneMore page before) (Same page before) (λ _. Same page before)
                (λ _. OneMore page before) (checked_type u.page_type) (last_steps depth)
                (checked_type-Same page before u.page_type) (last_steps-OneMore depth)))
