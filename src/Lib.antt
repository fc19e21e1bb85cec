-- ===== src/Lib.antt =====
-- Talyvor Docs: the engine of the shared editor, and the stores that decide who may change a page.
--
-- The program (Go) serves pages of spaces in workspaces. An editor's changes reach the collaboration
-- engine over a web socket, whose handler asks for the member's tier and for the lock guard before
-- each change. The engine keeps, for each page, a version, the last hundred changes, the last
-- snapshot with its author, and the clients. The autosaver writes snapshots to the page store. A
-- save over HTTP asks the composed guard: the manual lock, which knows the approval state, and
-- the edit session. The approval workflow owns the approval state of a page, and permissions turn grants
-- into an access level. The page store keeps the tree of pages and the history of each page; a save
-- there asks the composed guard, and hands the text to the throttle of the semantic indexer. Public
-- links open a page to visitors without an account, and a limiter bounds the calls of a workspace to
-- the language model. A request passes the gateway's proof and the roster of its workspaces, which a
-- reconcile keeps like an external one, before any of this. The content of a page is a tree that the link
-- syncer reads for embedded issues and that the exporter and the tool server write as HTML and as
-- markdown; a page may hold comments in threads, and databases with rows and views.
-- Teams are what a page can be shared with besides members.
--
-- Which file models which part:
--   Collab            internal/collab: Types (the data of ot.go), Transform (transform), Channels (trySend
--                     and the sends), Engine (the methods of OTEngine), Saver (saver.go), Handler (dispatch)
--   Postgres          migrations: the tables as lists of rows, and statements on them; Postgres.Run, methods
--                     over tables of their own
--   Page              internal/page/store.go: Tree (the recursive queries), Create, Update, Delete, History (the
--                     versions and the methods scoped to workspaces), Stale (GetStalePages), Listing (List),
--                     and the proofs in Forest and History
--   Freshness         internal/freshness/engine.go
--   PageIndex         internal/pageindex/pageindex.go, as steps of its goroutines
--   Pagelock          internal/pagelock/store.go
--   EditSession       internal/editsession/store.go, and EditSession.Composite composite.go
--   Approval          internal/approval/store.go
--   Permission        internal/permission/store.go
--   Sharing           internal/sharing/store.go
--   RateLimit         internal/ratelimit/ratelimit.go and middleware.go
--   Authz             internal/authz/authz.go; Authz.Space internal/spaceauth/spaceauth.go, and Authz.Session
--                     internal/collab/access.go, and Authz.Require internal/permission/middleware.go
--   Gateway           internal/gatewayauth, and the middleware of internal/authz/authz.go behind it
--   Membership        internal/membership/store.go and internal/authz/resolver.go
--   Doc               the decoded content of a page, for internal/pagelink, internal/export, internal/mcp
--   Pagelink          internal/pagelink/store.go
--   Export            internal/export/exporter.go: the HTML of blocks; Document, of pages; Children, the pages
--                     of an export
--   Mcp               internal/mcp/markdown.go, from content to markdown
--   Comment           internal/comment/store.go; Listing, its listing of threads
--   Team              internal/team/store.go
--   Database          internal/database/store.go, and Views for the views
--   Prelude           numbers, lists, maps and case lemmas; each Tests module holds examples
--
-- State and operations: a method of the engine is a function from the engine to the engine, as each runs
-- under its mutex. A method of a store is a chain of statements on one database state. Each
-- statement runs to its end or fails, as a list of outages in the state tells, so a theorem over all
-- databases is one over all failures. What was written before a failure stays. The clock is part of the
-- state: it stands still within a method, and moves between operations. Names that the program
-- generates (ids of new rows, colours by index) are arguments or numbers. An int of Go is an
-- integer with its 64-bit wrap-around; versions and times are natural numbers, which stay below any
-- bound that a machine reaches. Loops are over lists that are there, but for the recursive queries on
-- pages: their walk up from a page has a bound, the depths of all rows and their number, that is above
-- every depth, so it is enough where each page is deeper than its parent. The loop of an export over
-- batches of children has as many rounds as its fuel, and one more than the full batches is enough.
-- The page store, the share links, the roster, the links to issues, the comments, the teams and
-- the databases run on tables of their own, where a list tells which of the coming
-- statements fail. The throttle's World adds to its state the goroutines and, for the statements only,
-- the last entries that came in and that were embedded.
--
-- Parameters: the text that is read out of a page's content (JSON), the slug of a title, the guard's
-- answer, the links of a page and the issues of Track, the gate on reads and the mailer of the digest, the
-- token bucket of golang.org/x/time/rate, html.EscapeString, the reading and writing of numbers in cells,
-- the order of Go's maps, SHA-256, HMAC, base64 and bcrypt, random nonces and the ids that the
-- database makes.
--
-- Not modelled: JSON and the socket pumps, timers, the stores' pools that are absent, the text of wrapped
-- errors, two methods of a store that interleave between their statements, the link syncer and the
-- indexer as the page store calls them after its writes, the AI cost of a version, the searches of
-- pages, the other formats of an export, and the reading of markdown. The other packages are not
-- modelled: they are routes and glue, calls of external services, or stores of their own.
pub mod Prelude
pub mod Collab
pub mod Comment
pub mod Database
pub mod Doc
pub mod Export
pub mod Gateway
pub mod Mcp
pub mod Membership
pub mod Pagelink
pub mod Postgres
pub mod Freshness
pub mod Page
pub mod PageIndex
pub mod Pagelock
pub mod EditSession
pub mod Approval
pub mod Permission
pub mod Authz
pub mod RateLimit
pub mod Sharing
pub mod Team
pub mod Tests
