-- ===== src/PageIndex/Pool.antt =====
-- The pool of workers is bounded.
use mathlib.Core.Path.{subst}
use talyvor_docs.Prelude.Map.{lookup}
use talyvor_docs.Prelude.{
  ℕ, zero, suc, ◌+◌, ◌≤◌, String, ◌≡◌, refl, Bool, true, false, Option, none, some, List, [], ◌∷◌,
  arith, if◌then◌else◌, eqb, length, Bool-cases, inl, inr,
}
use talyvor_docs.PageIndex.{
  Entry, World, Event, save, fire, take, finish, leave, stop, status_of, is_scheduled, is_idle,
  index_page, promote, take_page, finish_page, count, drop_running, taken, finished, left, step,
  run, started, and_then, has_entry,
}

-- The workers that are left, and the counter of the embeds.
abbrev pub Bounded : ℕ → World → Type 0
Bounded workers w =
    (w.throttle.inflight ≡ length w.running) × (w.waiting + length w.running ≤ workers)

abbrev pub BoundedIf : ℕ → Option World → Type 0
BoundedIf workers none = Unit
BoundedIf workers (some w) = Bounded workers w

length-drop_running :
    (page : String) (xs : List (String × Entry)) (e : Entry)
    → lookup page xs ≡ some e
    → length (drop_running page xs) + 1 ≡ length xs
unfolding lookup drop_running
length-drop_running page [] e found = ground arith
length-drop_running page ((x, f) ∷ xs) e found = ground (arith, length-drop_running page xs e)

module _ (workers : ℕ) (w : World) (bounded : Bounded workers w) where
  taken-Bounded :
      (n : ℕ) (queue : List String)
      → w.waiting ≡ n
      → BoundedIf workers (taken w n (take_page w.throttle queue))
  unfolding take_page
  taken-Bounded zero [] = λ e. tt
  taken-Bounded zero (page ∷ rest) = λ e. tt
  taken-Bounded (suc n) [] = λ e. tt
  taken-Bounded (suc n) (page ∷ rest) = λ e. (omega (arith, bounded.0), omega (arith, bounded.1, e))

  finished-Bounded :
      (page : String) (entry : Option Entry)
      → lookup page w.running ≡ entry
      → BoundedIf workers (finished w page entry)
  unfolding finish_page
  finished-Bounded page none e = tt
  finished-Bounded page (some entry) e =
      elim (Bool-cases (has_entry (lookup page w.throttle.latest))) [
        | inl dirty ↦ rw dirty (ground (arith, bounded, length-drop_running page w.running entry e))
        | inr clean ↦ rw clean (ground (arith, bounded, length-drop_running page w.running entry e))
      ]

  left-Bounded :
      (stopped : Bool) (queue : List String) (n : ℕ)
      → w.waiting ≡ n
      → BoundedIf workers (left w stopped queue n)
  left-Bounded true [] (suc n) = λ e. (bounded.0, omega (arith, bounded.1, e))
  left-Bounded true [] zero = λ e. tt
  left-Bounded true (x ∷ xs) n = λ e. tt
  left-Bounded false queue n = λ e. tt

  save-Bounded : (page ws text : String) → BoundedIf workers (step w (save page ws text))
  unfolding step index_page
  save-Bounded page ws text = elim (Bool-cases (is_idle (status_of w.throttle page))) [
    | inl idle ↦ rw idle bounded
    | inr other ↦ rw other bounded
  ]

  fire-Bounded : (page : String) → BoundedIf workers (step w (fire page))
  unfolding step promote
  fire-Bounded page = elim (Bool-cases (eqb (count page w.timers) 0)) [
    | inl never ↦ rw never tt
    | inr pending ↦ rw pending (elim (Bool-cases (is_scheduled (status_of w.throttle page))) [
      | inl due ↦ rw due bounded
      | inr other ↦ rw other bounded
    ])
  ]

  step-Bounded : (e : Event) → BoundedIf workers (step w e)
  unfolding step
  step-Bounded (save page ws text) = save-Bounded page ws text
  step-Bounded (fire page) = fire-Bounded page
  step-Bounded take = taken-Bounded w.waiting w.throttle.queue refl
  step-Bounded (finish page) = finished-Bounded page (lookup page w.running) refl
  step-Bounded leave = left-Bounded w.throttle.stopped w.throttle.queue w.waiting refl
  step-Bounded stop = bounded

if-Bounded :
    (workers : ℕ) (o : Option World) (f : World → Option World)
    → BoundedIf workers o
    → ((w : World) → Bounded workers w → BoundedIf workers (f w))
    → BoundedIf workers (and_then o f)
if-Bounded workers none f b next = tt
if-Bounded workers (some w) f b next = next w b

run-Bounded :
    (workers : ℕ) (es : List Event) (w : World) → Bounded workers w → BoundedIf workers (run w es)
unfolding run
run-Bounded workers [] w b = b
run-Bounded workers (e ∷ es) w b =
    if-Bounded workers (step w e) (λ w'. run w' es) (step-Bounded workers w b e)
      (λ w' b'. run-Bounded workers es w' b')

started-Bounded : (workers : ℕ) → Bounded (if eqb workers 0 then 4 else workers) (started workers)
unfolding started
started-Bounded workers = (refl, ground arith)

-- Whatever is saved and in whatever order the goroutines run, no more embeds run than there are workers, and
-- `inflight` is the number of those that run. Where the options give no workers, there are 4.
pub inflight-le-workers :
    (workers : ℕ) (es : List Event) (w : World)
    → run (started workers) es ≡ some w
    → (w.throttle.inflight ≡ length w.running)
      × (w.throttle.inflight ≤ (if eqb workers 0 then 4 else workers))
inflight-le-workers workers es w e =
    let b : Bounded (if eqb workers 0 then 4 else workers) w =
      subst (BoundedIf (if eqb workers 0 then 4 else workers)) e (
        run-Bounded (if eqb workers 0 then 4 else workers) es (started workers)
          (started-Bounded workers)) in
    (b.0, omega (arith, b.0, b.1))
