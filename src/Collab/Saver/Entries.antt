-- ===== src/Collab/Saver/Entries.antt =====
-- What `mark_saved` and `drop_idle` make of the entry of a page.
use talyvor_docs.Prelude.{
  ℕ, String, ◌≡◌, inl, inr, false, not, ◌&&◌, Option, none, some, arith, if◌then◌else◌,
  Option-cases, ◌==◌, eq_iff,
}
use talyvor_docs.Prelude.Map
use talyvor_docs.Prelude.Map.{Map, ne_test}
use talyvor_docs.Collab.Types.{OtEngine, PageState}
use talyvor_docs.Collab.Engine.{unsaved, mark_saved, drop_idle, no_clients, raise_saved}

-- The entry of a page after `mark_saved`, and after `drop_idle`.
abbrev pub marked : ℕ → Option PageState → Option PageState
marked ver none = none
marked ver (some st) =
    let st' = raise_saved ver st in if no_clients st' && not (unsaved st') then none else some st'

abbrev pub dropped : Option PageState → Option PageState
dropped none = none
dropped (some st) = if no_clients st then none else some st

pub lookup-mark_saved :
    (e : OtEngine) (page other : String) (ver : ℕ)
    → Map.lookup other (mark_saved e page ver).pages
      ≡ (if page == other then marked ver (Map.lookup page e.pages) else Map.lookup other e.pages)
unfolding mark_saved
lookup-mark_saved e page other ver = elim (Option-cases (Map.lookup page e.pages)) [
  | inl q ↦ ground (arith, eq_iff page other)
  | inr (st, q) ↦ ground (
    arith,
    Map.lookup-insert page other (raise_saved ver st) e.pages,
    Map.lookup-erase page other e.pages,
  )
]

pub lookup-drop_idle :
    (e : OtEngine) (page other : String)
    → Map.lookup other (drop_idle e page).0.pages
      ≡ (if page == other then dropped (Map.lookup page e.pages) else Map.lookup other e.pages)
unfolding drop_idle
lookup-drop_idle e page other = elim (Option-cases (Map.lookup page e.pages)) [
  | inl q ↦ ground (arith, eq_iff page other)
  | inr (st, q) ↦ ground (arith, eq_iff page other, Map.lookup-erase page other e.pages)
]

pub raise_saved-unsaved : (st : PageState) → unsaved (raise_saved st.version st) ≡ false
unfolding unsaved raise_saved
raise_saved-unsaved st = ground arith
