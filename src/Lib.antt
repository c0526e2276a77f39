-- ===== src/Lib.antt =====
-- The review of game submissions: who may act on a submission, what an action changes, and what the
-- cache that the search reads says of it.
--
-- The program is a web service over a MySQL and a PostgreSQL database. A request passes the
-- authorizers of its route (transport/router.go, transport/middlewares.go), reaches a method of the
-- site service (service/), which checks the action against the submission as the search returns it,
-- and writes comments, files and the cache row in one transaction (database/).
--
-- The parts, with the files that model them:
-- - Prelude: shared tests, list helpers, and errors with their statuses (`perr`, `dberr`).
-- - Constants: constants/constants.go (Constants/Actions) and constants/roles.go (Constants/Roles).
-- - Review/Submission: `ExtendedSubmission` (types/types.go) as far as the review reads it.
-- - Review/Validator: `isActionValidForSubmission` (service/comments_action_validator.go), a group of
--   checks per function in the order of the source; Validator/Admission states what it admits.
-- - Review/Tables, Review/Cache: the rows of `comment` and `submission_file`, and database/caching.go
--   as functions of them. Cache/Latest and Cache/Replay replay a table comment by comment;
--   Cache/Meaning describes a query without its partitions and ranks.
-- - Review/Standing: the five sets of the cache at one user, as a state machine on comments.
-- - Review/Bot: what an upload makes of the validator's response (`convertValidatorResponseToComment`).
-- - Review/Row: one submission with its rows; an accepted action (`ReceiveComments`,
--   service/siteservice_comments.go), a committed version (`processReceivedSubmission`,
--   service/siteservice_submissionreceiver.go) and the search row (database/searchmonster.go).
--   Row/Refinement, Row/Invariant, Row/Preservation and Row/History hold its proofs.
-- - Transport: the authorizers of transport/middlewares.go, by what they ask (Scopes, Roles, Ownership,
--   Frozen, CommentAction), their combinators, the route of the comment receiver (CommentRoute), and
--   the states of a login (States, transport/auth.go).
-- - Access: service/submission_access.go, the reading of frozen submissions.
-- - Database: the transaction and the DAL calls of the review (Database/Session), the locks
--   (Database/Locks) and the search by ids (Database/Search).
-- - Comments: the comment receiver: one accepted action and the loop (Comments), guards, transaction
--   and commits (Comments/Receive). Comments/Effect, Accept, Refinement, Rounds, Batch, Found,
--   Soundness, Form, Guards, Atomicity, Trace, Recorded, Traced and Events hold its proofs.
-- - AppCache: appcache/cache.go: the map and the recency list (Keyed), the sections under the lock
--   (Cache, System), commits and loads that interleave (Steps), and what readers are given (Coherence).
-- - Search: `SubmissionsFilter` (types/types.go: Filter, Validation) and the queries that
--   `SearchSubmissions` builds from it (database/searchmonster.go: Blocks, Multifilter, Build, Query;
--   database/submission_search_query.go: Sql). Placeholders counts the `?` of a text;
--   Validity states field by field what a filter may be.
-- - Router: the table of transport/router.go (Routes, Pages, Games, Submissions, Tools) and the wrappers
--   of transport/middlewares.go that stand in front of a handler (Gates, Served).
-- - Tests: sample rows and requests, and the theorems applied to them.
--
-- Identifiers are natural numbers: the source's int64 ids are compared and never computed with. Times
-- are microseconds, the resolution of the columns. A table is a list with the row stored last in
-- front; an order that SQL leaves open is not used. Loops are structural but for the
-- eviction loop of the cache, which has fuel for one round more than there are elements.
-- The calls of the service that an authorizer makes are fields of `Transport.Request.Service`. The
-- clock, the trimming of strings and the game import are fields of `Comments.Environment`, and so is
-- whether a commit that returns an error was done all the same. A parse of an id is its optional result.
--
-- Not modelled: tokens, device flow and authorization codes (the rest of transport/auth.go), handlers
-- and templates, the
-- processing of uploaded files and metadata, the PostgreSQL metadata store, the bots and link
-- previews, and the blocking of concurrent transactions, which the database server does. The signal
-- to the notification consumer behind a commit carries no data and is left out.
pub mod Access
pub mod AppCache
pub mod Comments
pub mod Constants
pub mod Database
pub mod Prelude
pub mod Review
pub mod Router
pub mod Search
pub mod Tests
pub mod Transport
