-- ===== src/PageIndex/Sound.antt =====
-- The invariant of the throttle: each page has one task at most, and its last save is never lost.
use mathlib.Core.Path.{subst}
use talyvor_docs.Prelude.Map.{lookup, lookup-insert, lookup-erase}
use talyvor_docs.Prelude.{
  ℕ, zero, suc, ◌+◌, ◌-◌, ◌≤◌, String, ◌≡◌, refl, Bool, true, false, not, Option, none, some, List,
  [], ◌∷◌, ◌++◌, arith, ◌==◌, eq_iff, if◌then◌else◌, eqb, Bool-cases, inl, inr,
}
use talyvor_docs.PageIndex.{
  Entry, Status, st_idle, st_scheduled, st_queued, st_inflight, World, Event, save, fire, take,
  finish, leave, stop, status_of, is_scheduled, is_queued, is_inflight, is_idle, index_page,
  promote, take_page, finish_page, count, drop_first, count_running, drop_running, taken, finished,
  left, step, run, started, and_then, has_entry,
}

abbrev pub bit : Bool → ℕ
bit true = 1
bit false = 0

-- The entry that is still to embed, or else the last embedded one.
abbrev pub newest : Status → Option Entry → Option Entry → Option Entry → Option Entry
newest st_idle latest running embedded = embedded
newest st_scheduled latest running embedded = latest
newest st_queued latest running embedded = latest
newest st_inflight none running embedded = running
newest st_inflight (some e) running embedded = some e

-- A page that waits has an entry, an idle one has none.
abbrev pub has_latest : Status → Option Entry → Bool
has_latest st_idle latest = not (has_entry latest)
has_latest st_inflight latest = true
has_latest _ latest = has_entry latest

abbrev pub Sound : World → String → Type 0
Sound w page =
    let s = status_of w.throttle page in
    (count page w.timers ≡ bit (is_scheduled s))
    × (count page w.throttle.queue ≡ bit (is_queued s))
    × (count_running page w.running ≡ bit (is_inflight s))
    × (has_latest s (lookup page w.throttle.latest) ≡ true)
    × (lookup page w.saved
        ≡ newest s (lookup page w.throttle.latest) (lookup page w.running) (lookup page w.embedded))

count-drop_first :
    (page asked : String) (xs : List String)
    → count asked (drop_first page xs) ≡ count asked xs - (if page == asked then 1 else 0)
unfolding count drop_first
count-drop_first page asked [] = ground arith
count-drop_first page asked (x ∷ xs) =
    ground (arith, eq_iff x page, eq_iff x asked, eq_iff page asked, count-drop_first page asked xs)

count-append :
    (asked page : String) (xs : List String)
    → count asked (xs ++ page ∷ []) ≡ count asked xs + (if page == asked then 1 else 0)
unfolding count
count-append asked page [] = ground arith
count-append asked page (x ∷ xs) = ground (arith, count-append asked page xs)

count-drop_running :
    (page asked : String) (xs : List (String × Entry))
    → count_running asked (drop_running page xs)
      ≡ count_running asked xs - (if page == asked then 1 else 0)
unfolding count_running drop_running
count-drop_running page asked [] = ground arith
count-drop_running page asked ((x, e) ∷ xs) =
    ground
      (arith, eq_iff x page, eq_iff x asked, eq_iff page asked, count-drop_running page asked xs)

lookup-drop_running :
    (page asked : String) (xs : List (String × Entry))
    → (page == asked) ≡ false
    → lookup asked (drop_running page xs) ≡ lookup asked xs
unfolding lookup drop_running
lookup-drop_running page asked [] other = refl
lookup-drop_running page asked ((x, e) ∷ xs) other =
    ground
      (arith, eq_iff x page, eq_iff x asked, eq_iff page asked, lookup-drop_running page asked xs)

count-running_pos :
    (page : String) (xs : List (String × Entry)) (e : Entry)
    → lookup page xs ≡ some e
    → 1 ≤ count_running page xs
unfolding lookup count_running
count-running_pos page [] e found = ground arith
count-running_pos page ((x, f) ∷ xs) e found = ground (arith, count-running_pos page xs e)

abbrev pub SoundIf : Option World → String → Type 0
SoundIf none q = Unit
SoundIf (some w) q = Sound w q

module _ (w : World) (q : String) (sound : Sound w q) where
  save-Sound : (page ws text : String) → SoundIf (step w (save page ws text)) q
  unfolding step index_page count
  save-Sound page ws text =
      let entry : Entry = record { ws = ws; text = text } in
      elim (Bool-cases (is_idle (status_of w.throttle page))) [
        | inl idle ↦ rw idle (
            ground (
              arith,
              sound,
              eq_iff page q,
              lookup-insert page q st_scheduled w.throttle.status,
              lookup-insert page q entry w.throttle.latest,
              lookup-insert page q entry w.saved,
            ))
        | inr other ↦ rw other (
            ground (
              arith,
              sound,
              eq_iff page q,
              lookup-insert page q entry w.throttle.latest,
              lookup-insert page q entry w.saved,
            ))
      ]

  fire-Sound : (page : String) → SoundIf (step w (fire page)) q
  unfolding step promote count
  fire-Sound page = elim (Bool-cases (eqb (count page w.timers) 0)) [
    | inl never ↦ rw never tt
    | inr pending ↦ rw pending (elim (Bool-cases (is_scheduled (status_of w.throttle page))) [
      | inl due ↦ rw due (
          ground (
            arith,
            sound,
            eq_iff page q,
            count-drop_first page q w.timers,
            count-append q page w.throttle.queue,
            lookup-insert page q st_queued w.throttle.status,
          ))
      | inr other ↦
          rw other (ground (arith, sound, eq_iff page q, count-drop_first page q w.timers))
    ])
  ]

  taken-Sound :
      (n : ℕ) (queue : List String)
      → w.throttle.queue ≡ queue
      → SoundIf (taken w n (take_page w.throttle queue)) q
  unfolding take_page count count_running lookup
  taken-Sound zero [] = λ e. tt
  taken-Sound zero (page ∷ rest) = λ e. tt
  taken-Sound (suc n) [] = λ e. tt
  taken-Sound (suc n) (page ∷ rest) = λ e. ground (
    arith,
    sound,
    e,
    eq_iff page q,
    lookup-insert page q st_inflight w.throttle.status,
    lookup-erase page q w.throttle.latest,
  )

  finished-Sound :
      (page : String) (entry : Option Entry)
      → lookup page w.running ≡ entry
      → SoundIf (finished w page entry) q
  unfolding finish_page
  finished-Sound page none e = tt
  finished-Sound page (some entry) e =
      elim (Bool-cases (has_entry (lookup page w.throttle.latest))) [
        | inl dirty ↦ rw dirty (
            ground (
              arith,
              sound,
              eq_iff page q,
              count-drop_running page q w.running,
              lookup-drop_running page q w.running,
              count-running_pos page w.running entry e,
              count-append q page w.throttle.queue,
              lookup-insert page q st_queued w.throttle.status,
              lookup-insert page q entry w.embedded,
            ))
        | inr clean ↦ rw clean (
            ground (
              arith,
              sound,
              eq_iff page q,
              count-drop_running page q w.running,
              lookup-drop_running page q w.running,
              count-running_pos page w.running entry e,
              lookup-erase page q w.throttle.status,
              lookup-insert page q entry w.embedded,
            ))
      ]

  left-Sound : (stopped : Bool) (queue : List String) (n : ℕ) → SoundIf (left w stopped queue n) q
  left-Sound true [] (suc n) = sound
  left-Sound true [] zero = tt
  left-Sound true (x ∷ xs) n = tt
  left-Sound false queue n = tt

  pub step-Sound : (e : Event) → SoundIf (step w e) q
  unfolding step
  step-Sound (save page ws text) = save-Sound page ws text
  step-Sound (fire page) = fire-Sound page
  step-Sound take = taken-Sound w.waiting w.throttle.queue refl
  step-Sound (finish page) = finished-Sound page (lookup page w.running) refl
  step-Sound leave = left-Sound w.throttle.stopped w.throttle.queue w.waiting
  step-Sound stop = sound

if-Sound :
    (o : Option World) (q : String) (f : World → Option World)
    → SoundIf o q
    → ((w : World) → Sound w q → SoundIf (f w) q)
    → SoundIf (and_then o f) q
if-Sound none q f sound next = tt
if-Sound (some w) q f sound next = next w sound

run-Sound : (es : List Event) (w : World) (q : String) → Sound w q → SoundIf (run w es) q
unfolding run
run-Sound [] w q sound = sound
run-Sound (e ∷ es) w q sound =
    if-Sound (step w e) q (λ w'. run w' es) (step-Sound w q sound e) (λ w' s. run-Sound es w' q s)

started-Sound : (workers : ℕ) (q : String) → Sound (started workers) q
unfolding started count count_running lookup
started-Sound workers q = (refl, refl, refl, refl, refl)

pub reached-Sound :
    (workers : ℕ) (es : List Event) (w : World) (q : String)
    → run (started workers) es ≡ some w
    → Sound w q
reached-Sound workers es w q e =
    subst (λ o. SoundIf o q) e (run-Sound es (started workers) q (started-Sound workers q))

-- A page that is idle was embedded with its last save.
pub idle-embedded :
    (workers : ℕ) (es : List Event) (w : World) (q : String)
    → run (started workers) es ≡ some w
    → is_idle (status_of w.throttle q) ≡ true
    → lookup q w.embedded ≡ lookup q w.saved
idle-embedded workers es w q e idle = ground (arith, reached-Sound workers es w q e)
