-- ===== src/PageIndex/Tests.antt =====
-- The theorems of the throttle at a run: two saves of a page, the second during the embed of the first.
use talyvor_docs.Prelude.Map.{insert, erase}
use talyvor_docs.Prelude.{◌≤◌, ◌≡◌, refl, false, none, some, List, [], ◌∷◌, length}
use talyvor_docs.PageIndex.{
  World, Event, save, fire, take, leave, stop, Entry, st_inflight, run, started, count, drop_first,
}
use talyvor_docs.PageIndex.Sound.{Sound}
use talyvor_docs.PageIndex.Pool.{inflight-le-workers}

abbrev two_saves : List Event
two_saves = save "p" "w" "one" ∷ fire "p" ∷ take ∷ save "p" "w" "two" ∷ []

abbrev one : Entry
one = record { ws = "w"; text = "one" }

abbrev two : Entry
two = record { ws = "w"; text = "two" }

abbrev busy : World
busy = record {
  throttle = record {
    latest = ("p", two) ∷ [];
    status = ("p", st_inflight) ∷ [];
    queue = [];
    inflight = 1;
    stopped = false;
  };
  timers = [];
  running = ("p", one) ∷ [];
  waiting = 1;
  saved = ("p", two) ∷ [];
  embedded = [];
}

busy_reached : run (started 2) two_saves ≡ some busy
unfolding run started count drop_first insert erase
busy_reached = refl

inflight-le-workers_example :
    (busy.throttle.inflight ≡ length busy.running) × (busy.throttle.inflight ≤ 2)
inflight-le-workers_example = inflight-le-workers 2 two_saves busy busy_reached

-- A page whose timer fires after the workers have left is not embedded.
too_late : run (started 1) (save "p" "w" "one" ∷ stop ∷ leave ∷ fire "p" ∷ take ∷ []) ≡ none
unfolding run started count
too_late = refl
