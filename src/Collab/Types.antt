-- ===== src/Collab/Types.antt =====
-- internal/collab/ot.go: the data of the engine.
use talyvor_docs.Prelude.{ℕ, String, Bool, Option, List}
use talyvor_docs.Prelude.Int.{ℤ}
use talyvor_docs.Prelude.Map.{Map}

-- `OpType` is a string that the client sends, so any other text is possible too.
pub data OpType : Type 0 where
  insert delete retain replace : OpType
  other : String → OpType

-- `Pos` and `Length` are Go `int`s.
pub record Op : Type 0 where
  pub type : OpType
  pub pos : ℤ
  pub content : String
  pub length : ℤ

pub record Change : Type 0 where
  pub id : String
  pub page_id : String
  pub client_id : String
  pub version : ℕ
  pub ops : List Op
  pub snapshot : String
  pub timestamp : ℕ

pub record CursorPos : Type 0 where
  pub from : ℤ
  pub to : ℤ

-- `send` is the address of the client's outbound channel in the engine's `channels`.
pub record CollabClient : Type 0 where
  pub id : String
  pub member_id : String
  pub member_name : String
  pub cursor : Option CursorPos
  pub color : ℕ
  pub send : ℕ

pub record PageState : Type 0 where
  pub version : ℕ
  pub history : List Change
  pub snapshot : String
  pub snapshot_by : String
  pub saved_version : ℕ
  pub clients : Map CollabClient

pub record PresenceInfo : Type 0 where
  pub client_id : String
  pub member_id : String
  pub member_name : String
  pub cursor : Option CursorPos
  pub color : ℕ

-- The frames that the server sends, before JSON encoding.
pub data Message : Type 0 where
  init : ℕ → List PresenceInfo → Message
  joined left : PresenceInfo → Message
  change : Change → ℕ → Message
  cursor : String → CursorPos → Message
  ack : String → ℕ → Message
  change_rejected : String → Message
  pong : Message

-- A buffered Go channel: what waits in it, oldest first.
pub record Channel : Type 0 where
  pub queue : List Message
  pub closed : Bool

-- `on_idle` tells whether the AutoSaver has installed its hook.
pub record OtEngine : Type 0 where
  pub pages : Map PageState
  pub on_idle : Bool
  pub channels : List Channel
