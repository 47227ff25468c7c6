-- ===== src/Lib.antt =====
-- Verification of tamper, a Go library for authentication, authorization and tenancy. A tenant is
-- identified by an ID that says whether it was set; tenants form a forest through the parent of each
-- descriptor; plans, items and domains are inherited along it. Authorization answers who may do what
-- within the scope of one tenant, by roles on ladders or by sets of permission keys.
--
-- How the parts interact: `tenant` knows nothing of the other packages. `tenant.Ancestors` walks over
-- the read port `tenant.Store`, which `tenant.MemStore` implements, and the inherited plans, items
-- and domain authorities walk over `Ancestors`. `authz` takes the scope and the home tenant of a
-- subject from `tenant.ID`; its engines read a port (`BindingStore`, `PermissionStore`) that an
-- application implements, `authz.MemStore` and `authz.MemPermissionStore` being those for tests.
-- `saml.ParseAssertion` hands an assertion that the SAML library validated to `correlate` and then to
-- the single-use ledger. `identity.Core` logs users in within a `tenant.ID`, keeps its sessions in a store,
-- of which `identity.MemStore` is the one in memory, and asks a token service of `crypto` for access
-- tokens. `scim.DetectCycle` reads the table of group members through a port.
--
-- Prelude: shared helpers.
--   Prelude/Tests          the equality interface, Boolean tests, case lemmas
--   Prelude/Lists          lists, membership, `contains`
--   Prelude/Text           texts and their characters
--   Prelude/Results        results with an error, and their do blocks
--   Prelude/Dict           Go's map as a list of entries
--   Prelude/Int            the tests of Go's int that the plans use
--   Prelude/Sorting        sort.Slice as an insertion sort
--   Prelude/Counting       how long a list without repetition can be
-- Tenant: the package tenant/.
--   Tenant/Ident           tenant/id.go: `ID`, `Single`, `New`, `FromStored`
--   Tenant/Errors          the sentinel errors of the package
--   Tenant/Store           tenant/tenant.go, tenant/store.go, tenant/memstore.go, tenant/admin.go:
--                          `Descriptor`, `Store`, `MemStore` (`Seed`, `ByID`, `BySlug`, `List`,
--                          `Create`, `SetStatus`)
--   Tenant/Hierarchy       tenant/hierarchy.go: `Ancestors`
--   Tenant/Entitlements    tenant/entitlements.go, tenant/entitlement_inherit.go: `Union`,
--                          `AllowsAnotherIdP`, `inheriting.ForTenant`
--   Tenant/Inherited       tenant/inherited.go: `Inherited`
--   Tenant/Domain          tenant/domain.go: `RequireNormalisedDomain`, `ResolveDomain`; and
--                          `IsProperSubdomain` of tenant/domain_inherit.go
--   Tenant/DomainInherit   tenant/domain_inherit.go: `InheritedDomainAuthority`
-- Audit: the log of the package audit/.
--   Audit/Bytes            byte strings; `bytesEqual` and the length prefixes of audit/audit.go
--   Audit/Event            audit/audit.go: `Event`, `Actor`, `validateRequiredFields`
--   Audit/Payload          audit/canonical_v4.go: `canonicalPayloadV4`
--   Audit/Redaction        audit/redaction.go: `ComputeCommitments`, `VerifyCommitments`, `Redact`
--   Audit/Chain            audit/audit.go, audit/audit_sqlite.go, audit/verify_boot.go: `ComputeHash`,
--                          `walkChain`, `VerifyChainPostMigration`
--   Audit/Logger           audit/audit_sqlite.go: `NewSQLiteLogger`, `Log`, `Verify`,
--                          `PruneOlderThan`, `DeleteEventByID`, `RedactEvent`, with the queries of
--                          audit/internal/sqlitestore/events.sql.go
-- Authz: the package authz/.
--   Authz/Types            authz/authz.go, authz/store.go: subjects, resources, bindings, gates
--   Authz/Policy           authz/policy.go: ladders, policies and their validation
--   Authz/MemStore         authz/memstore.go: the in-memory store of bindings
--   Authz/Rbac             authz/rbac.go: `Check`, `CheckBulk`, `ListResources`, `ListSubjects`
--   Authz/PermissionSet    authz/permissionset.go: the same four on sets of permission keys
--   Authz/RbacPermissions  authz/rbacpermissionstore.go: a role engine as a store of keys
--   Authz/MemPermissions   authz/mempermissionstore.go: the in-memory store of permission keys
-- Crypto: a part of the package crypto/.
--   Crypto/KeySet          crypto/keyset.go: `NewKeySet`, `Seal`, `Open`
-- Identity: the core of the package identity/.
--   Identity/Types         identity/identity.go, identity/errors.go: users, sessions, invitations
--   Identity/MemStore      identity/memstore.go: `MemStore`, as the store, the invitation store and
--                          the membership store
--   Identity/Action        calls on the store one after another, with their errors
--   Identity/Core          identity/core.go, identity/tenantcheck.go, identity/secondfactor.go,
--                          identity/throttle.go: `Register`, `Login`, `IssueTokensForUser`, `Refresh`, `Logout`,
--                          `RevokeAllSessions`, `RevokeAllSessionsForTenant`
--   Identity/Invitation    identity/invitation.go: `Invite`, `AcceptInvitation`
--   Identity/Membership    identity/membership.go: `EnterTenant`, `EnterableTenants`
--   Identity/Login         on `Login`
--   Identity/Rotation      on `Refresh`
--   Identity/Revocation    on `RevokeAllSessionsForTenant`
--   Identity/Enter         on `EnterTenant` and `EnterableTenants`
--   Identity/History       any sequence of these calls
-- Saml: parts of the package saml/.
--   Saml/Ledger            saml/memstore.go: `MemAssertionReplayStore`
--   Saml/Replay            saml/replay.go: `correlate`, `assertionReplayKey`, `replayExpiry`; and
--                          `ParseAssertion` of saml/parse.go from the library's answer on
-- Scim: parts of the package scim/.
--   Scim/Nesting           scim/nesting.go: `DetectCycle`
--   Scim/Filter            scim/filter.go: `Translate`
--
-- How the code is translated. A struct is a record, and a method that writes one is a function to
-- the new one; each method of the in-memory stores reads and writes its maps under the mutex, so it is one
-- step. A Go error is the error of a result, by its sentinel; text that only describes is dropped. A Go map
-- is a list of entries, or of elements for a set; the order of the entries is that of an iteration,
-- over which the theorems quantify. A port is a record of functions; a call to it has no effect
-- that the caller relies on. A context.Context is dropped: no code here reads it itself.
--
-- In audit a Go string or slice is a list of bytes, an absent slice is the empty one, and a time is
-- the nanoseconds since Go's zero time; `uint32(len)` and `UnixNano` keep their wrap-around. A call of
-- the logger is one step on its watermark and the shared table, since it runs in one immediate
-- transaction; the salt is an argument, none where the source of random bytes fails.
--
-- In identity a call gives back the store with its answer, so that what was written before an error
-- stays written; a call runs alone, and two that overlap are not modelled. What it reads from outside
-- is an argument, `Inputs`: the clock as it starts and the clock as it issues tokens, new ids, the
-- random token, the hash of the new password and the answer of the limiter. `Core` holds the parts it is configured with; the
-- token service, the hash of a token, the check of a password, the policy on second
-- factors and the folding of an address (`strings.ToLower` and `strings.TrimSpace`) are parameters
-- there. Its times are nanoseconds, 0 for the zero time and for what is not after the epoch; the
-- duration of a session does not reach the width of a time.
--
-- Bounds and fuel. `climb`, the loop of `Ancestors`, is on fuel and gets 33 rounds: the chain grows
-- by one in each round that goes on, and a chain of 32 stops the loop, so the fuel never runs out.
-- `search`, the loop of `DetectCycle`, gets its fuel as an argument: no group is queued twice, so a
-- round for each group of the table is enough. Every other loop is over a list. Go's int is 64 bits
-- wide; the caps of plans are only compared and the ranks are positions in a list, so the integers
-- here have no bound.
--
-- Not modelled: nil arguments, which panic; contexts; the reason of a decision and the text of
-- errors; the random token and the DNS lookup of tenant/verify.go; the rest of the packages saml,
-- scim and crypto; second factors, linked identities, impersonation and the hooks of identity; the
-- packages oidc, espresso and oauth2social; examples/; the pages,
-- counts and export of audit, and failures of its database other than a taken id. The SAML library's
-- parsing, its two windows of time and the SHA-256 digest are parameters of Saml/Replay; AES-GCM and
-- the random bytes are those of Crypto/KeySet; SHA-256 is that of Audit.
pub mod Prelude
pub mod Tenant
pub mod Authz
pub mod Audit
pub mod Crypto
pub mod Identity
pub mod Saml
pub mod Scim
