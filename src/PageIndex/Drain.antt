-- ===== src/PageIndex/Drain.antt =====
-- The steps of the workers and the timers come to an end, with all saves embedded.
use talyvor_docs.Prelude.Map.{Map, lookup}
use talyvor_docs.Prelude.{
  ℕ, ◌+◌, ◌*◌, ◌≤◌, ◌<◌, String, ◌≡◌, Bool, true, false, Option, none, some, List, [], ◌∷◌, length,
  all,
}
use talyvor_docs.PageIndex.{Entry, World, Event, fire, take, finish, run}
use talyvor_docs.PageIndex.Sound.{Sound}

-- A save, a worker that leaves and `Stop` come from outside.
abbrev pub is_work : Event → Bool
is_work (fire page) = true
is_work take = true
is_work (finish page) = true
is_work _ = false

abbrev dirty : Option Entry → ℕ
dirty none = 1
dirty (some e) = 3

abbrev weight : Map Entry → List (String × Entry) → ℕ
weight latest [] = 0
weight latest ((page, e) ∷ running) = dirty (lookup page latest) + weight latest running

-- The work that is left: 3 for a timer, 2 for a page in the queue, 1 for an embed and 2 for its repetition.
abbrev work : World → ℕ
work w = 3 * length w.timers + 2 * length w.throttle.queue + weight w.throttle.latest w.running

-- What a step of work leads to: less work, the same saves, and a worker still there.
abbrev Less : World → Option World → Type 0
Less w none = ⊥
Less w (some w') = (work w' < work w) × (w'.saved ≡ w.saved) × (1 ≤ w'.waiting + length w'.running)

abbrev Quiet : World → Type 0
Quiet w = (w.timers ≡ []) × (w.throttle.queue ≡ []) × (w.running ≡ [])

-- Work of the goroutines alone, after which every page is embedded with its last save.
abbrev pub Drains : World → Type 0
Drains w =
    (es : List Event) × (w' : World) × (run w es ≡ some w')
    × (all is_work es ≡ true)
    × ((q : String) → lookup q w'.embedded ≡ lookup q w.saved)
