-- ===== src/Postgres/Rows.antt =====
-- The rows of the tables, with the columns that the modelled stores use.
use talyvor_docs.Prelude.{ℕ, String, Bool, Option, List}

-- `DocStatus` of internal/approval/store.go
pub data DocStatus : Type 0 where
  draft in_review approved rejected archived : DocStatus

-- pages (migrations/0002, 0009, 0010)
pub record PageRow : Type 0 where
  pub id : String
  pub workspace_id : String
  pub space_id : String
  pub doc_status : DocStatus
  pub locked : Bool
  pub locked_by : Option String
  pub locked_at : Option ℕ

-- page_edit_sessions, whose key is the page
pub record SessionRow : Type 0 where
  pub page_id : String
  pub workspace_id : String
  pub holder : String
  pub acquired_at : ℕ
  pub last_heartbeat : ℕ

-- `ApprovalStatus` of internal/approval/store.go
pub data ApprovalStatus : Type 0 where
  pending approved rejected : ApprovalStatus

-- approval_requests
pub record ApprovalRequest : Type 0 where
  pub id : String
  pub page_id : String
  pub workspace_id : String
  pub requested_by : String
  pub reviewers : List String
  pub message : String
  pub due_date : Option ℕ
  pub status : ApprovalStatus
  pub created_at : ℕ
  pub updated_at : ℕ

-- review_decisions, unique on (request_id, reviewer_id)
pub record ReviewDecision : Type 0 where
  pub request_id : String
  pub reviewer_id : String
  pub decision : String
  pub comment : String

-- `AccessLevel` and `ResourceType` of internal/permission/store.go
pub data AccessLevel : Type 0 where
  nothing view comment edit admin : AccessLevel

pub data ResourceType : Type 0 where
  space page : ResourceType

-- permissions, unique on (resource_type, resource_id, subject_type, subject_id)
pub record Permission : Type 0 where
  pub id : String
  pub resource_type : ResourceType
  pub resource_id : String
  pub subject_type : String
  pub subject_id : String
  pub access : AccessLevel
  pub workspace_id : String
  pub granted_by : String
  pub created_at : ℕ

-- teams and team_members
pub record TeamRow : Type 0 where
  pub id : String
  pub workspace_id : String
  pub created_by : String

pub record TeamMember : Type 0 where
  pub team_id : String
  pub workspace_id : String
  pub member_id : String

-- The clock is the server's `now()`. `outages` tells of the coming statements which will fail.
pub record Db : Type 0 where
  pub pages : List PageRow
  pub sessions : List SessionRow
  pub requests : List ApprovalRequest
  pub decisions : List ReviewDecision
  pub permissions : List Permission
  pub teams : List TeamRow
  pub team_members : List TeamMember
  pub clock : ℕ
  pub outages : List Bool
