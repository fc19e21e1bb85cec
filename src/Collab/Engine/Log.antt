-- ===== src/Collab/Engine/Log.antt =====
-- `Apply` against the log of all the changes that a page has ever committed.
use mathlib.Core.Path.{subst}
use mathlib.Core.List.{foldl}
use talyvor_docs.Prelude.{
  ℕ, zero, suc, ◌+◌, ◌-◌, ◌≤◌, ◌≡◌, refl, sym, ap, ◌∙◌, String, false, List, [], ◌∷◌, ◌++◌, arith,
  length, length-append, length-drop, drop, ◌==◌, leb, leb→le, Bool-cases, inl, inr, ltb, ltb→lt,
  tests, some, if◌then◌else◌,
}
use talyvor_docs.Prelude.Map
use talyvor_docs.Collab.Types.{Change, PageState, OtEngine}
use talyvor_docs.Collab.Transform.{transform}
use talyvor_docs.Collab.Engine.{
  transform_history, commit, trim, history_cap, page_state, store_page, apply,
}

-- The versions of a list of changes run from `lo + 1` without a gap.
abbrev pub Numbered : ℕ → List Change → Type 0
Numbered lo [] = Unit
Numbered lo (c ∷ cs) = (c.version ≡ lo + 1) × Numbered (lo + 1) cs

-- The page state holds the last changes of the log, and its version counts the log.
pub record Holds (log : List Change) (st : PageState) : Type 0 where
  pub version : st.version ≡ length log
  pub numbered : Numbered 0 log
  pub history : st.history ≡ drop (length log - history_cap) log

Numbered-append :
    (lo : ℕ) (log : List Change) (c : Change)
    → Numbered lo log
    → c.version ≡ lo + length log + 1
    → Numbered lo (log ++ c ∷ [])
Numbered-append lo [] c h e = omega arith
Numbered-append lo (d ∷ log) c h e = (h.0, Numbered-append (lo + 1) log c h.1 (omega arith))

Numbered-drop : (lo n : ℕ) (log : List Change) → Numbered lo log → Numbered (lo + n) (drop n log)
Numbered-drop lo zero log h = let e : lo + 0 ≡ lo = omega arith in rw e h
Numbered-drop lo (suc n) [] h = tt
Numbered-drop lo (suc n) (c ∷ log) h =
    let e : lo + suc n ≡ lo + 1 + n = omega arith in rw e (Numbered-drop (lo + 1) n log h.1)

drop-nil : (n : ℕ) → drop {A = Change} n [] ≡ []
drop-nil zero = refl
drop-nil (suc n) = refl

drop-drop : (m n : ℕ) (log : List Change) → drop m (drop n log) ≡ drop (n + m) log
drop-drop m zero log = let e : 0 + m ≡ m = omega arith in rw e
drop-drop m (suc n) [] = drop-nil m ∙ sym (drop-nil (suc n + m))
drop-drop m (suc n) (c ∷ log) =
    let e : suc n + m ≡ suc (n + m) = omega arith in rw e (drop-drop m n log)

drop-append : (n : ℕ) (xs ys : List Change) → n ≤ length xs → drop n (xs ++ ys) ≡ drop n xs ++ ys
drop-append zero xs ys h = refl
drop-append (suc n) [] ys h = absurd (omega arith)
drop-append (suc n) (x ∷ xs) ys h = drop-append n xs ys (omega arith)

-- A base version that has seen none of the changes.
transform_history-unseen :
    (lo : ℕ) (log : List Change) (change : Change)
    → Numbered lo log
    → change.version ≤ lo
    → transform_history log change ≡ foldl transform change log
unfolding transform_history
transform_history-unseen lo [] change h le = refl
transform_history-unseen lo (c ∷ log) change h le =
    let newer : leb c.version change.version ≡ false = ground arith in
    rw newer (transform_history-unseen (lo + 1) log (transform change c) h.1 (omega arith))

-- The changes that the base version has seen are passed over, and the others are all applied.
transform_history-Numbered :
    (lo : ℕ) (log : List Change) (change : Change)
    → Numbered lo log
    → lo ≤ change.version
    → transform_history log change ≡ foldl transform change (drop (change.version - lo) log)
unfolding transform_history
transform_history-Numbered lo [] change h le = rw drop-nil
transform_history-Numbered lo (c ∷ log) change h le =
    elim (Bool-cases (leb c.version change.version)) [
      | inl seen ↦
          let past : lo + 1 ≤ change.version =
            omega (arith, leb→le c.version change.version seen) in
          let e : change.version - lo ≡ suc (change.version - (lo + 1)) = omega arith in
          rw (seen, e) (transform_history-Numbered (lo + 1) log change h.1 past)
      | inr newer ↦
          let at : change.version ≤ lo = ground arith in
          let e : change.version - lo ≡ 0 = omega arith in
          rw (newer, e)
            (transform_history-unseen (lo + 1) log (transform change c) h.1 (omega arith))
    ]

trim-drop :
    (n : ℕ) (log : List Change)
    → length log ≡ n + 1
    → trim (drop (n - history_cap) log) ≡ drop (length log - history_cap) log
unfolding trim
trim-drop n log h = elim (Bool-cases (ltb history_cap (length (drop (n - history_cap) log)))) [
  | inl over ↦
      let len = length-drop (n - history_cap) log in
      let e : n - history_cap + (length (drop (n - history_cap) log) - history_cap)
          ≡ length log - history_cap =
        omega (tests, ltb→lt _ _ over) in
      rw over (
        drop-drop (length (drop (n - history_cap) log) - history_cap) (n - history_cap) log
        ∙ ap (λ k. drop k log) e)
  | inr room ↦
      let e : n - history_cap ≡ length log - history_cap =
        ground (arith, length-drop (n - history_cap) log) in
      rw room (ap (λ k. drop k log) e)
]

history-append :
    (log : List Change) (st : PageState) (c : Change)
    → Holds log st
    → trim (st.history ++ c ∷ []) ≡ drop (length (log ++ c ∷ []) - history_cap) (log ++ c ∷ [])
history-append log st c h = rw h.history (
    rw (← drop-append (length log - history_cap) log (c ∷ []) (omega arith))
      (trim-drop (length log) (log ++ c ∷ []) (length-append log (c ∷ []))))

-- A commit stamps the change with the next version, and appends it to the log.
commit-Holds :
    (now : ℕ) (log : List Change) (st : PageState) (c : Change)
    → Holds log st
    → let out = commit now st c in
      (out.1 ≡ record c { version = length log + 1; timestamp = now })
      × Holds (log ++ out.1 ∷ []) out.0
unfolding commit
commit-Holds now log st c h =
    let d : Change = record c { version = st.version + 1; timestamp = now } in
    let count : st.version + 1 ≡ length (log ++ d ∷ []) =
      omega (arith, length-append log (d ∷ []), h.version) in
    let numbers = Numbered-append 0 log d h.numbered (omega (arith, h.version)) in
    let kept = history-append log st d h in
    elim (Bool-cases (c.snapshot == "")) [
      | inl same ↦
          rw same (rw h.version, record { version = count; numbered = numbers; history = kept })
      | inr new ↦
          rw new (rw h.version, record { version = count; numbered = numbers; history = kept })
    ]

-- The same on a page's state.
apply_page-log :
    (now : ℕ) (log : List Change) (st : PageState) (change : Change)
    → Holds log st
    → length log - history_cap ≤ change.version
    → let out = commit now st (transform_history st.history change) in
      let merged = foldl transform change (drop change.version log) in
      (out.1 ≡ record merged { version = length log + 1; timestamp = now })
      × Holds (log ++ out.1 ∷ []) out.0
unfolding commit
apply_page-log now log st change h base =
    let merged : transform_history st.history change
        ≡ foldl transform change (drop change.version log) =
      rw h.history (
        transform_history-Numbered (length log - history_cap) (drop (length log - history_cap) log)
          change
          (subst (λ k. Numbered k (drop (length log - history_cap) log)) (omega arith)
            (Numbered-drop 0 (length log - history_cap) log h.numbered))
          base
        ∙ ap (foldl transform change) (
            drop-drop (change.version - (length log - history_cap)) (length log - history_cap) log
            ∙ ap (λ k. drop k log) (omega arith))) in
    rw merged (commit-Holds now log st (foldl transform change (drop change.version log)) h)

pub page_state-store_page :
    (page : String) (st : PageState) (e : OtEngine) → page_state (store_page page st e) page ≡ st
unfolding page_state store_page
page_state-store_page page st e = ground (arith, Map.lookup-insert_self page st e.pages)

-- The change that `Apply` returns, and the state that it leaves, on a page that holds the whole
-- of a log in its version and the last hundred changes of it in its history: where the client's
-- base version is no older than that history, the change is transformed against exactly the
-- changes of the log from its base version on, in order, it takes the next version, and the
-- page then holds the log with it at the end.
-- No other page changes.
pub apply-log :
    (now : ℕ) (log : List Change) (e : OtEngine) (page : String) (change : Change)
    → Holds log (page_state e page)
    → length log - history_cap ≤ change.version
    → let out = apply now e page change in
      let merged = foldl transform change (drop change.version log) in
      (out.1 ≡ record merged { version = length log + 1; timestamp = now })
      × Holds (log ++ out.1 ∷ []) (page_state out.0 page)
      × ((other : String)
          → Map.lookup other out.0.pages
            ≡ (if page == other then some (page_state out.0 page) else Map.lookup other e.pages))
unfolding apply store_page
apply-log now log e page change h base =
    let st = page_state e page in
    let out = commit now st (transform_history st.history change) in
    let (sent, holds) = apply_page-log now log st change h base in
    (
      sent,
      rw (page_state-store_page page out.0 e) holds,
      λ other. rw (page_state-store_page page out.0 e) (Map.lookup-insert page other out.0 e.pages),
    )
