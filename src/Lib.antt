-- ===== src/Lib.antt =====
-- rauthy, an OpenID Connect provider: its core logic in rauthy-models, rauthy-service, rauthy-handlers and
-- rauthy-common, as definitions that run, with theorems about them.
--
-- A request passes two middlewares: the one of IpBlacklist refuses blacklisted addresses, that of
-- Principal.Middleware finds its session (Sessions.Store) and its API key (ApiKeys.Store) and checks
-- both. The handlers then ask the principal for permission (Principal). A login (Authorize)
-- checks the user's password (Users.Password) and the client (Clients) and creates an authorization code,
-- which the client redeems for tokens (AuthCodes) and renews those (RefreshTokens); devices poll for theirs
-- (Devices), and a client may bind its tokens to a key (Dpop). Failed logins are delayed and, after
-- some, blocked (LoginDelay), by events (Events) that reach the blacklist. Links in mails (MagicLinks)
-- set passwords.
--
-- - Base: texts, lists, tests and tables, with their laws; Fixtures: data that the tests share.
-- - ErrorResponse: rauthy-common/src/error_response.rs, the type of an error.
-- - Users: rauthy-models/src/entity/users.rs; Users.Password also entity/password.rs.
--   Users.Store its table and its caches. Accounts: the updates from requests, in the same file, with
--   entity/users_values.rs.
-- - Groups, Roles: rauthy-models/src/entity/groups.rs and entity/roles.rs, with Named, which they share.
-- - Authorize: `authorize` and `authorize_refresh` of rauthy-service/src/auth.rs; Grants: the grants of
--   client credentials, of a password and of a refresh token of that file.
-- - Clients: rauthy-models/src/entity/clients.rs, the checks and lists of a client; Clients.Store the
--   table and its caches, with entity/clients_dyn.rs in Clients.Store.Dynamic.
-- - Scopes: rauthy-models/src/entity/scopes.rs.
-- - Sessions: rauthy-models/src/entity/sessions.rs; Sessions.Store its table and its cache.
-- - ApiKeys: rauthy-models/src/entity/api_keys.rs; ApiKeys.Store its table and its cache.
-- - Principal: rauthy-models/src/entity/principal.rs; Principal.Middleware is
--   rauthy-handlers/src/middleware/principal.rs.
-- - AuthCodes: rauthy-models/src/entity/auth_codes.rs and `grant_type_code` of rauthy-service/src/auth.rs.
-- - Devices: rauthy-models/src/entity/devices.rs, `grant_type_device_code` of rauthy-service/src/auth.rs,
--   and `post_device_verify` of rauthy-handlers/src/oidc.rs; Devices.Store the tables, with
--   entity/refresh_tokens_devices.rs.
-- - RefreshTokens: rauthy-models/src/entity/refresh_tokens.rs and `validate_refresh_token` of
--   rauthy-service/src/auth.rs.
-- - Dpop: rauthy-models/src/entity/dpop_proof.rs.
-- - MagicLinks: rauthy-models/src/entity/magic_links.rs.
-- - LoginDelay: `handle_login_delay` of rauthy-service/src/auth.rs; IpBlacklist:
--   rauthy-models/src/events/ip_blacklist_handler.rs, the router of events/listener.rs, and
--   rauthy-handlers/src/middleware/ip_blacklist.rs; Events: rauthy-models/src/events/event.rs.
--
-- A definition has the name of the Rust function, and each module of operations a record for the state that
-- they share: a table of the database or a cache is a list of pairs of a key and a value. An operation that
-- changes state takes the state and returns it; one that may fail returns a `Result`, and where it fails
-- after a change of state, both. The clock, random texts and settings are arguments. Database and caches
-- answer every request, and an entry stays in a cache until it is removed.
-- Texts are lists of codes; `len` on a text counts bytes where that matters. Times after 1970 are natural
-- numbers, and a test on a difference of times is written with a sum. Machine integers wrap where the
-- program increments one. Recursion is structural everywhere, so no fuel is needed.
--
-- Not modelled: cryptography, base64, JSON, JWT and HTTP, which are parameters of the definitions that use
-- them; the endpoints and entities that are not named above; mails, templates, the frontend, the client
-- library and the schedulers.
pub mod Accounts
pub mod ApiKeys
pub mod AuthCodes
pub mod Authorize
pub mod Base
pub mod Clients
pub mod Devices
pub mod Dpop
pub mod ErrorResponse
pub mod Events
pub mod Fixtures
pub mod Grants
pub mod Groups
pub mod IpBlacklist
pub mod LoginDelay
pub mod MagicLinks
pub mod Named
pub mod Principal
pub mod RefreshTokens
pub mod Roles
pub mod Scopes
pub mod Sessions
pub mod Users
