-- ===== src/PageIndex.antt =====
-- internal/pageindex/pageindex.go: the throttle between page saves and the semantic indexer. A step is what
-- one goroutine does under the mutex: a save, a timer of a page, a worker that takes a page or is done with
-- one, a worker that leaves, and `Stop`. The limiter and the indexer run between a worker's two steps.
pub mod Sound
pub mod Pool
pub mod Drain
pub mod Tests
use talyvor_docs.Prelude.Map.{Map, lookup, insert, erase}
use talyvor_docs.Prelude.{
  ℕ, zero, suc, ◌+◌, ◌-◌, String, Bool, true, false, not, ◌&&◌, Option, none, some, List, [], ◌∷◌,
  ◌++◌, ◌==◌, if◌then◌else◌, eqb, ltb, length,
}

-- entry
pub record Entry : Type 0 where
  pub ws : String
  pub text : String

-- The lifecycle of a page; a missing key is `st_idle`.
pub data Status : Type 0 where
  st_idle st_scheduled st_queued st_inflight : Status

-- Throttle, without what `New` sets once.
pub record Throttle : Type 0 where
  pub latest : Map Entry
  pub status : Map Status
  pub queue : List String
  pub inflight : ℕ
  pub stopped : Bool

abbrev pub status_or_idle : Option Status → Status
status_or_idle none = st_idle
status_or_idle (some s) = s

-- t.status[pageID]
abbrev pub status_of : Throttle → String → Status
status_of t page = status_or_idle (lookup page t.status)

abbrev pub is_scheduled : Status → Bool
is_scheduled st_scheduled = true
is_scheduled _ = false

abbrev pub is_queued : Status → Bool
is_queued st_queued = true
is_queued _ = false

abbrev pub is_inflight : Status → Bool
is_inflight st_inflight = true
is_inflight _ = false

abbrev pub is_idle : Status → Bool
is_idle st_idle = true
is_idle _ = false

-- `IndexPage`; the flag tells whether it starts a timer.
unfoldable pub index_page : String → String → String → Throttle → Throttle × Bool
index_page page ws text t =
    let latest = insert page (record { ws = ws; text = text }) t.latest in
    if is_idle (status_of t page)
    then (record t { latest = latest; status = insert page st_scheduled t.status }, true)
    else (record t { latest = latest }, false)

-- `promote`
unfoldable pub promote : String → Throttle → Throttle
promote page t =
    if is_scheduled (status_of t page)
    then record t { status = insert page st_queued t.status; queue = t.queue ++ page ∷ [] }
    else t

abbrev pub no_entry : Entry
no_entry = record { ws = ""; text = "" }

abbrev pub or_no_entry : Option Entry → Entry
or_no_entry none = no_entry
or_no_entry (some e) = e

-- The first half of a worker's turn: the page at the head of the queue, and what to embed.
unfoldable pub take_page : Throttle → List String → Option (String × Entry × Throttle)
take_page t [] = none
take_page t (page ∷ rest) = some (
  page,
  or_no_entry (lookup page t.latest),
  record t {
    queue = rest;
    latest = erase page t.latest;
    status = insert page st_inflight t.status;
    inflight = t.inflight + 1;
  },
)

abbrev pub has_entry : Option Entry → Bool
has_entry none = false
has_entry (some e) = true

-- The second half, after the embed.
unfoldable pub finish_page : String → Throttle → Throttle
finish_page page t =
    let done = record t { inflight = t.inflight - 1 } in
    if has_entry (lookup page t.latest)
    then record done { status = insert page st_queued t.status; queue = t.queue ++ page ∷ [] }
    else record done { status = erase page t.status }

-- The throttle with its goroutines: the timers that have not fired, the workers that embed, with the page and
-- the entry of each, and the number of those that wait. `saved` and `embedded` record the last entry of each
-- page that came in, and the last that an embed was done with.
pub record World : Type 0 where
  pub throttle : Throttle
  pub timers : List String
  pub running : List (String × Entry)
  pub waiting : ℕ
  pub saved : Map Entry
  pub embedded : Map Entry

pub data Event : Type 0 where
  save : String → String → String → Event
  fire : String → Event
  take : Event
  finish : String → Event
  leave stop : Event

unfoldable pub count : String → List String → ℕ
count page [] = 0
count page (x ∷ xs) = let rest = count page xs in if x == page then suc rest else rest

unfoldable pub drop_first : String → List String → List String
drop_first page [] = []
drop_first page (x ∷ xs) = let rest = drop_first page xs in if x == page then xs else x ∷ rest

unfoldable pub count_running : String → List (String × Entry) → ℕ
count_running page [] = 0
count_running page ((x, e) ∷ xs) =
    let rest = count_running page xs in if x == page then suc rest else rest

unfoldable pub drop_running : String → List (String × Entry) → List (String × Entry)
drop_running page [] = []
drop_running page ((x, e) ∷ xs) =
    let rest = drop_running page xs in if x == page then xs else (x, e) ∷ rest

abbrev pub with_timer : Bool → String → List String → List String
with_timer true page timers = page ∷ timers
with_timer false page timers = timers

-- A worker that waits takes the page.
abbrev pub taken : World → ℕ → Option (String × Entry × Throttle) → Option World
taken w zero _ = none
taken w (suc n) none = none
taken w (suc n) (some (page, e, t)) =
    some (record w { throttle = t; running = (page, e) ∷ w.running; waiting = n })

abbrev pub finished : World → String → Option Entry → Option World
finished w page none = none
finished w page (some e) = some (record w {
  throttle = finish_page page w.throttle;
  running = drop_running page w.running;
  waiting = w.waiting + 1;
  embedded = insert page e w.embedded;
})

-- `if t.stopped && len(t.queue) == 0`
abbrev pub left : World → Bool → List String → ℕ → Option World
left w true [] (suc n) = some (record w { waiting = n })
left w _ _ _ = none

-- What an event leads to, where it can happen.
unfoldable pub step : World → Event → Option World
unfolding index_page promote take_page finish_page lookup
step w (save page ws text) =
    let (t, timer) = index_page page ws text w.throttle in
    some (record w {
      throttle = t;
      timers = with_timer timer page w.timers;
      saved = insert page (record { ws = ws; text = text }) w.saved;
    })
step w (fire page) =
    if eqb (count page w.timers) 0
    then none
    else some (record w { throttle = promote page w.throttle; timers = drop_first page w.timers })
step w take = taken w w.waiting (take_page w.throttle w.throttle.queue)
step w (finish page) = finished w page (lookup page w.running)
step w leave = left w w.throttle.stopped w.throttle.queue w.waiting
step w stop = some (record w { throttle = record w.throttle { stopped = true } })

-- `New` and `Start`: as many workers as the options say, 4 where they say none.
unfoldable pub started : ℕ → World
started workers = record {
  throttle = record { latest = []; status = []; queue = []; inflight = 0; stopped = false };
  timers = [];
  running = [];
  waiting = if eqb workers 0 then 4 else workers;
  saved = [];
  embedded = [];
}

abbrev pub and_then : Option World → (World → Option World) → Option World
and_then none f = none
and_then (some w) f = f w

unfoldable pub run : World → List Event → Option World
unfolding step
run w [] = some w
run w (e ∷ es) = and_then (step w e) (λ w'. run w' es)
