-- ===== src/Collab/Engine.antt =====
-- internal/collab/ot.go: the operations of `OTEngine`. Each runs under the engine's mutex, so each
-- is one step.
pub mod Log
pub mod Author
use mathlib.Core.Option
use Prim.Native.String.{◌++◌ as str_append}
use talyvor_docs.Prelude.{
  ℕ, ◌+◌, ◌-◌, ◌%◌, String, Bool, false, true, not, ◌&&◌, ◌||◌, Option, none, some, List, [], ◌∷◌,
  ◌++◌, map, length, drop, ltb, leb, eqb, if◌then◌else◌, ◌==◌,
}
use talyvor_docs.Prelude.Map
use talyvor_docs.Prelude.Map.{Map}
use talyvor_docs.Collab.Types.{
  Change, CursorPos, CollabClient, PageState, PresenceInfo, Message, OtEngine,
}
use talyvor_docs.Collab.Transform.{transform}
use talyvor_docs.Collab.Channels.{fresh_channel, close, at_address, try_send, broadcast}

abbrev pub history_cap : ℕ
history_cap = 100

-- the length of `presenceColors`; a colour is its index there
abbrev pub color_count : ℕ
color_count = 8

abbrev pub new_page_state : PageState
new_page_state = record {
  version = 0;
  history = [];
  snapshot = "";
  snapshot_by = "";
  saved_version = 0;
  clients = [];
}

abbrev pub new_engine : OtEngine
new_engine = record { pages = []; on_idle = false; channels = [] }

-- `pageStateLocked`; the caller stores the state that it goes on with
unfoldable pub page_state : OtEngine → String → PageState
page_state e page = elim (Map.lookup page e.pages) [ none ↦ new_page_state | some st ↦ st ]

unfoldable pub unsaved : PageState → Bool
unsaved st = not (st.snapshot == "") && ltb st.saved_version st.version

unfoldable pub snapshot : OtEngine → String → String × ℕ × String
snapshot e page = elim (Map.lookup page e.pages) [
  | none ↦ ("", 0, "")
  | some st ↦ (st.snapshot, st.version, st.snapshot_by)
]

unfoldable pub unsaved_snapshot : OtEngine → String → Option (String × ℕ × String)
unfolding unsaved
unsaved_snapshot e page = elim (Map.lookup page e.pages) [
  | none ↦ none
  | some st ↦ if unsaved st then some (st.snapshot, st.version, st.snapshot_by) else none
]

unfoldable pub dirty_in : Map PageState → List String
unfolding unsaved
dirty_in [] = []
dirty_in ((id, st) ∷ pages) = if unsaved st then id ∷ dirty_in pages else dirty_in pages

unfoldable pub dirty_pages : OtEngine → List String
unfolding dirty_in
dirty_pages e = dirty_in e.pages

-- An update of the page's entry, where there is one.
unfoldable pub store_page : String → PageState → OtEngine → OtEngine
store_page page st e = record e { pages = Map.insert page st e.pages }

unfoldable pub delete_page : String → OtEngine → OtEngine
delete_page page e = record e { pages = Map.erase page e.pages }

unfoldable pub no_clients : PageState → Bool
no_clients st = eqb (length st.clients) 0

unfoldable pub raise_saved : ℕ → PageState → PageState
raise_saved ver st = record st {
  saved_version = if ltb st.saved_version ver then ver else st.saved_version;
}

unfoldable pub mark_saved : OtEngine → String → ℕ → OtEngine
unfolding raise_saved no_clients unsaved delete_page store_page
mark_saved e page ver = elim (Map.lookup page e.pages) [
  | none ↦ e
  | some st ↦
      let st' = raise_saved ver st in
      if no_clients st' && not (unsaved st') then delete_page page e else store_page page st' e
]

unfoldable pub drop_idle : OtEngine → String → OtEngine × Bool
unfolding no_clients delete_page
drop_idle e page = elim (Map.lookup page e.pages) [
  | none ↦ (e, false)
  | some st ↦ if no_clients st then (delete_page page e, true) else (e, false)
]

unfoldable pub presence_for : CollabClient → PresenceInfo
presence_for c = record {
  client_id = c.id;
  member_id = c.member_id;
  member_name = c.member_name;
  cursor = c.cursor;
  color = c.color;
}

unfoldable pub presence_from : Map CollabClient → List PresenceInfo
unfolding presence_for
presence_from clients = map (λ (entry : String × CollabClient). presence_for entry.1) clients

unfoldable pub get_presence : OtEngine → String → List PresenceInfo
unfolding presence_from
get_presence e page = elim (Map.lookup page e.pages) [
  | none ↦ []
  | some st ↦ presence_from st.clients
]

-- `Join`, once its arguments are there
unfoldable pub admit : OtEngine → String → String → String → String → OtEngine × CollabClient
unfolding page_state presence_from broadcast store_page
admit e page client member name =
    let st = page_state e page in
    let address = length e.channels in
    let c : CollabClient = record {
      id = client;
      member_id = member;
      member_name = name;
      cursor = none;
      color = length st.clients % color_count;
      send = address;
    } in
    let st' = record st { clients = Map.insert client c st.clients } in
    let greeted =
      try_send address (Message.init st'.version (presence_from st'.clients))
        (e.channels ++ fresh_channel ∷ []) in
    let told =
      broadcast (λ id. id == client) (Message.joined (presence_for c)) st'.clients greeted in
    (store_page page st' (record e { channels = told }), c)

-- `none` is the error "page_id and client_id required".
unfoldable pub join :
    OtEngine → String → String → String → String → Option (OtEngine × CollabClient)
unfolding admit
join e page client member name =
    if page == "" || client == "" then none else some (admit e page client member name)

-- `leave`; the second part tells whether `Leave` goes on to call `onIdle`
unfoldable pub leave_client :
    OtEngine → String → PageState → String → CollabClient → OtEngine × Bool
unfolding at_address close presence_for broadcast no_clients unsaved delete_page store_page
leave_client e page st client c =
    let st' = record st { clients = Map.erase client st.clients } in
    let told =
      broadcast (λ _. false) (Message.left (presence_for c)) st'.clients
        (at_address c.send close e.channels) in
    let e' = record e { channels = told } in
    if not (no_clients st')
    then (store_page page st' e', false)
    else if unsaved st' && e.on_idle
    then (store_page page st' e', true)
    else (delete_page page e', false)

unfoldable pub leave : OtEngine → String → String → OtEngine × Bool
unfolding leave_client
leave e page client = elim (Map.lookup page e.pages) [
  | none ↦ (e, false)
  | some st ↦ elim (Map.lookup client st.clients) [
    | none ↦ (e, false)
    | some c ↦ leave_client e page st client c
  ]
]

-- The first loop of `Apply`: the history from oldest to newest, less what the client has seen.
unfoldable pub transform_history : List Change → Change → Change
unfolding transform
transform_history [] change = change
transform_history (prior ∷ rest) change =
    transform_history rest
      (if leb prior.version change.version then change else transform change prior)

unfoldable pub trim : List Change → List Change
trim history =
    if ltb history_cap (length history)
    then drop (length history - history_cap) history
    else history

unfoldable pub author : PageState → Change → String
author st change = elim (Map.lookup change.client_id st.clients) [
  | none ↦ st.snapshot_by
  | some c ↦ c.member_id
]

-- The rest of `Apply`, on the transformed change.
unfoldable pub commit : ℕ → PageState → Change → PageState × Change
unfolding trim author
commit now st change =
    let committed = record change { version = st.version + 1; timestamp = now } in
    let st' = record st {
      version = st.version + 1;
      history = trim (st.history ++ committed ∷ []);
    } in
    if change.snapshot == ""
    then (st', committed)
    else (record st' { snapshot = change.snapshot; snapshot_by = author st change }, committed)

-- `Apply` returns one change, and never an error. `now` is the clock's reading.
unfoldable pub apply : ℕ → OtEngine → String → Change → OtEngine × Change
unfolding page_state transform_history commit store_page
apply now e page change =
    let st = page_state e page in
    let (st', committed) = commit now st (transform_history st.history change) in
    (store_page page st' e, committed)

unfoldable pub broadcast_change : OtEngine → String → Change → String → OtEngine
unfolding broadcast
broadcast_change e page change except = elim (Map.lookup page e.pages) [
  | none ↦ e
  | some st ↦ record e {
    channels =
        broadcast (λ id. id == except) (Message.change change change.version) st.clients e.channels;
  }
]

unfoldable pub update_cursor : OtEngine → String → String → CursorPos → OtEngine
unfolding broadcast store_page
update_cursor e page client cursor = elim (Map.lookup page e.pages) [
  | none ↦ e
  | some st ↦ elim (Map.lookup client st.clients) [
    | none ↦ e
    | some c ↦
        let st' = record st {
          clients = Map.insert client (record c { cursor = some cursor }) st.clients;
        } in
        store_page page st' (record e {
          channels =
              broadcast (λ id. id == client) (Message.cursor client cursor) st'.clients e.channels;
        })
  ]
]
