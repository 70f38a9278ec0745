-- ===== src/Lib.antt =====
-- Postbrain: a memory and knowledge server. Its core decides who may do what on a tree of scopes, and
-- moves knowledge artifacts and skills through a reviewed life. This library models that core.
--
-- Authorization (Authz, of internal/authz). A permission is the text `resource:operation`.
-- Authz.Permissions is permissions.go (Parse, Expand, AllPermissions), Authz.PermSet permset.go,
-- Authz.Roles roles.go, Authz.Tokens token.go, Authz.Promotions promotions.go and Authz.Inheritance
-- inheritance.go. Authz.ReadOnly holds the helpers of resolver.go and Authz.Resolver its
-- EffectivePermissions and HasPermission over a record of the queries. Authz.Tables answers these queries
-- from tables, as internal/db/authz.sql.go does, with ReachableScopeIDs; Authz.Tables.Spec says from the
-- tables alone who is meant to have a permission. Authz.TokenResolver is
-- token_resolver.go with AuthorizeContextScope of internal/api/scopeauth/scopeauth.go, the check of
-- a request's token against one scope. Authz.Cache is resolver_cache.go: the critical sections on the map,
-- and a step relation under which the calls of several goroutines interleave.
--
-- Lifecycles. LifecycleCore is internal/lifecyclecore/lifecyclecore.go. Knowledge.Lifecycle is
-- internal/knowledge/lifecycle.go (SubmitForReview, RetractToDraft, Endorse, Deprecate, Republish,
-- Delete, EmergencyRollback) and Skills.Lifecycle internal/skills/lifecycle.go. Both run on tables,
-- Knowledge.Tables and Skills.Tables, with the queries of internal/db/knowledge.sql.go,
-- internal/db/entities.sql.go, internal/db/skills.sql.go and internal/db/compat that they call.
--
-- Promotion. Knowledge.Promote is internal/knowledge/promote.go: CreateRequest and Reject on the
-- tables of requests, memories and artifacts, and Knowledge.Promote.Approval is its Approve, in one
-- transaction: its statements change a copy of the tables that only a commit publishes.
--
-- Memberships. Principals.Membership is internal/principals/membership.go: the table of memberships
-- with AddMembership and RemoveMembership, and the admin checks, which the lifecycles use through the
-- membership checker. Principals.Ancestry is the recursive query for the ancestors of a principal that
-- the queries of internal/db/authz.sql.go share.
--
-- Tokens. Oauth is internal/oauth/codes.go and pkce.go, Oauth.Exchange the token endpoint
-- (token_handler.go, token_exchange.go) on the tables of codes, clients and tokens, with the queries of
-- internal/db and internal/auth/tokens.go that it calls. A history is any sequence of requests and new codes.
-- Oauth.Consent is the way to a code: the authorization request (scopes.go, states.go, authorize_handler.go)
-- and the consent of internal/ui/oauth_consent.go.
--
-- Texts and search results. Chunking is internal/chunking/chunker.go, Knowledge.Summarize
-- internal/knowledge/summarize.go, and Retrieval the Merge of internal/retrieval/merge.go.
--
-- Jobs. Jobs is internal/jobs/batch.go, the loop over pages, and internal/jobs/backfill_summaries.go.
--
-- Conventions. A UUID and a time are numbers. A call that may fail returns a Result; one that also
-- changes the database takes and returns it, and keeps what it changed before an error. The list
-- `outages` of a database says which of the next queries fail, so a theorem on every database is a
-- theorem on every pattern of failures. Go's maps are association lists with one entry for a key. The
-- counts are unbounded numbers where the columns are INT. A loop is a recursion on a list, or on fuel
-- where the code has no bound of its own: the recursive query has fuel for a round per membership and two
-- more, the loops of Chunking for a round per rune or sentence and one more, and the loop over pages takes
-- its fuel as an argument. A loop that is out of fuel answers `none`.
--
-- The children of a module hold its theorems, and the modules Tests their use at concrete inputs.
-- Prelude has the shared tests, lists, dictionaries, results and stateful calls.
--
-- Parameters: SHA-256 and its encodings, floating-point scores with their comparison, the call of
-- sort.Slice, the services for embeddings and summaries, random values and clocks.
--
-- Not modelled: the recursive query behind AddMembership, memory and knowledge search, the
-- registration and revocation of OAuth, the other jobs, the code graph, the interfaces and the model providers.
pub mod Prelude
pub mod Authz
pub mod LifecycleCore
pub mod Knowledge
pub mod Skills
pub mod Principals
pub mod Chunking
pub mod Jobs
pub mod Oauth
pub mod Retrieval
