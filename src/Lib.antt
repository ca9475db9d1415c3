-- ===== src/Lib.antt =====
-- Verification of ddnser, the dynamic DNS service of this repository (crate under src/).
--
-- The program keeps DNS records in PostgreSQL (src/storage.rs, with the schema of
-- migrations/0001_cloudflare_records.sql) and pushes them to Cloudflare (src/cloudflare.rs). One
-- worker runs `run_sync` of src/sync.rs for each request that the timer, the API (src/api.rs) or
-- the router's webhook (src/webhook.rs) puts into its queue. A run lists the rows, finds the public
-- IPv4 address if there is a dynamic row (src/ip.rs), lists the zones, and calls `reconcile` for
-- each row.
--
-- Base      shared types and operators: text as code points, results, JSON values, lists, and the
--           monad `Act` of calls that change a world and return, fail or panic
-- Net       `Ipv4Addr` of the standard library with its parser and printer, and `Ipv6`, the
--           parameter that stands for `Ipv6Addr`
-- Storage   src/storage.rs: Tables has the types and the constraints of the schema, Records the
--           statements on `records` under their names in the source, Runs those on `sync_runs`.
--           Each statement meets a turn, which says whether the server answers and what time it
--           is, so a statement can fail at any point of a run. Finding, Versions and Steady are
--           about the row that an ID names
-- Cloudflare  src/cloudflare.rs: Types has the types of the wire, Client the interface of the six
--           calls, a record over any state, which the functions of Sync take as a parameter; Http
--           the client itself, its requests, `decode` and the page loop of `list`, over a
--           transport; Http/Listing fills the interface with it, Http/Requests is about the
--           requests for the rows of the table
-- Sync      src/sync.rs: Matching has `identity_matches`, `desired` and `content_matches`; World
--           the database, the provider's state and the calls made to it; Reconcile `reconcile`,
--           one function per branch; Delete `delete_record`; Run `run_sync` and the outcome; Keeps
--           and Rows what a run does to the database at large; Worker the type `Syncer`: the
--           channel, the worker, the timer, `trigger` and `sync_now`. Reconcile/Store has the
--           provider as a store of records, Placed and Stored what a reconciliation leaves of the
--           row and of the store, Recovery what follows a link that could not be stored, Run/Settling
--           to Run/Fixpoint what a run and the next one leave, Edits rows edited after a push
-- Ip        src/ip.rs: `is_public_ipv4`, `parse_myip`, the vote of the resolvers, `resolve_ipv4`
-- Api       src/api.rs: Validate has `validate` and what it calls, Handlers the handlers, with what
--           they do to the table in its children
-- Webhook   src/webhook.rs: `credentials`, what `nic_update` decides before a sync, and its answer
-- Metrics   src/metrics.rs: the counter of runs and the gauges of the latest one
-- Assets    src/assets.rs: `serve`
-- Auth      src/auth.rs: `authenticate`, `refresh_keys` and the checks of claims; Refreshing the
--           refresh among concurrent callers, Rotation a token under keys not fetched yet; Sessions
--           the handlers on the cookies of a request, Sessions/Browsers what a browser does with
--           the cookies of a response, Sessions/Lasting both together
-- Service   the program as a whole: `Step` is a step relation on the state `Syncer` over all that
--           handlers, timer, channel and worker may do, `Reach` its runs; Routes the routes of
--           src/main.rs with the session check in front of the API; Twice two runs in a row
-- Startup   src/main.rs from the arguments to the listeners, and `discover` of src/auth.rs: the
--           settings, the state in which the service starts, and the addresses
-- Tests     runs of the model and the theorems at concrete data, with a provider in memory
--
-- State and effects. A function of src/sync.rs that is async becomes a function from a world to how
-- it ends and the world then; `?` and `map_err` are binds, `unwrap` ends in a panic. The listing of
-- a zone, which `reconcile` changes in place, is passed in and returned; the cache of `run_sync` is
-- an association list whose newest entry counts. The loops over rows are structural recursion. The
-- page loop of `list` runs on fuel 2^32, one more than the pages that a u32 numbers from 1, and a
-- run out of fuel is a value of its own. A port is printed on fuel 5, which Startup/Ports shows to
-- be enough. Casts to u16, u32 and i32 and the u32 counters wrap around.
--
-- Concurrency. The mutation lock serialises `run_sync` and the three writes of the API, so each is
-- one step of the service. Putting a request into the channel, taking it out, and writing down an
-- outcome are steps of their own, and any order of steps is a run. A sender that finds the channel
-- full waits in a queue; the outcomes that `oneshot` channels carry are kept by ticket. A caller
-- that goes away while it waits is not modelled. `refresh_keys` is two steps, around its atomic.
--
-- Parameters. For Sync the HTTP client (`Client`); for that client reqwest and serde_json
-- (`Transport`); openidconnect (`Provider`), the encrypted cookies of axum-extra with serde_json
-- (`Cookies`, with the laws `Auth.Sessions.Browsers.IsLawful`: a jar puts into the response what was
-- added, and the removal of what the request brought, and JSON is read back), the browser
-- (`Browser`: what RFC 6265bis says of Secure, Path, Max-Age and the prefix __Host-), rust-embed and mime_guess (`Embedded`); IPv6 addresses (`Ipv6`, with the
-- laws `IsLawful` of the standard library: an address is read back from its text, which has no
-- whitespace), the crates http and base64 (`Codecs`), the clock, the answers of the resolvers and
-- the order in which a hash map lists its entries (`Surroundings`). A provider that keeps the ID
-- of an updated record is `KeepsIds`, one that stores what it is sent is `IsFaithful`; both are
-- hypotheses of theorems, and the provider of Tests/Fixtures has them.
--
-- The provider of a second run is `IsStore`: its zones do not change, it holds under a zone and an
-- ID at most one record, a listing reports what it holds, an answered create adds what was sent
-- under an ID that the zone did not have, an answered update puts what was sent under the ID, and
-- reads change nothing; the provider of Tests/Careful has it in every state. A write that fails
-- may have done anything. For start-up sqlx, reqwest, openidconnect and the sockets are `Machine`.
--
-- Not modelled: how clap reads the arguments, and what `connect` of src/storage.rs and `new` of
-- src/cloudflare.rs configure; how axum matches a path; the text that prometheus prints; logging;
-- and the web interface under web/. A crash of the process is not a step of the service.
pub mod Base
pub mod Net
pub mod Ip
pub mod Storage
pub mod Cloudflare
pub mod Sync
pub mod Api
pub mod Webhook
pub mod Metrics
pub mod Assets
pub mod Auth
pub mod Service
pub mod Startup
pub mod Tests
