-- ===== src/Lib.antt =====
-- Claviger keeps live authenticated sessions for named identities, and sends requests under them.
-- A recipe (internal/recipe) logs an identity in and renews its session; the store (internal/store)
-- holds the session of each identity and renews it once for all its callers, under a ceiling of
-- attempts in a time window; the gateway (internal/gateway) is an HTTP proxy on a loopback port,
-- which puts an identity's session on each request, and logs in again when a response looks logged
-- out; replay (internal/replay, cmd/replay.go) sends requests under several identities and compares
-- the statuses.
--
-- The files:
--   Prelude, Text    shared lists, options, results, integers; the functions of Go's strings package
--                    and the canonical form of a header name (textproto)
--   Http             requests and responses; Http/Header is http.Header, a list of entries
--   Effect           an action on a state that may fail, which keeps the state beside the error;
--                    Effect/Task, code that is cut at its actions;
--                    Env, the functions of the Go library that the program takes
--   Session          internal/session/session.go: Session, Apply (apply), Expired (expired)
--   Recipe           internal/recipe/recipe.go and signature.go: Recipe, Matches (matches);
--                    Recipe/Expiry is expiresAt, Recipe/Form is formpost.go, Recipe/Oauth is
--                    oauth.go, Recipe/Flow is multistep.go: jsonPath, subst, applyExtract, and
--                    Recipe/Flow/Establish for MultiStep.Establish; Recipe/Browser is browser.go:
--                    chromePath, waitForSuccess (poll), Browser.Establish (establish_within)
--   Store            internal/store/store.go: Get (get, get_entry), Refresh (refresh,
--                    refresh_entry), RefreshExpiring, Health, Identities, Register;
--                    Store/Entry is entry with commit, fail and rateLimited; Store/Flight is the
--                    locking of Get and Refresh as a step relation of any number of threads,
--                    with Store/Flight/Ends on how its calls come to an end;
--                    Store/Contract is what the store promises, as a map of sessions; Store/Owned
--                    is whose session an entry holds, Store/Sweep the loop of RefreshExpiring,
--                    Store/Order the order of Identities
--   Gateway          internal/gateway: Gateway/Serve is serve, Gateway/Forward is forward,
--                    Gateway/Csrf is csrfTokenFor, invalidateCSRF and NewCSRFPolicy,
--                    Gateway/Headers is hopByHop and copyHeader, Gateway/Host is isLoopbackHost,
--                    Gateway/Retry is retry.go, Gateway/Setup is New and its options;
--                    Gateway/Own follows a request of one identity through the shared state,
--                    Gateway/Alone what a request reads of it, Gateway/Audit its audit records;
--                    Gateway/Tasks is serve cut at its actions
--   Corpus           internal/corpus: Corpus/Requests is loadRequests, Corpus/Har is har.go,
--                    Corpus/Openapi is openapi.go, Corpus/Load is LoadOptions and detectFormat
--   Httpx            internal/httpx/httpx.go: Transport (transport), Client (client)
--   Config           internal/config/config.go: Recipes (recipes), validEndpoint, buildMultiStep;
--                    Config/Secrets is Load (load) and secrets.go; Config/Each is what all four
--                    kinds of recipe have in common, Config/Honest whom they log in
--   Daemon           cmd/daemon.go and cmd/tls.go: Daemon/Flags is tls.go, Daemon/Startup is
--                    buildStore and buildCSRFPolicies, Daemon/Run is RunE up to its first bind
--                    (prepare), Daemon/Listen the listeners until they are closed,
--                    Daemon/Proactive is proactiveRefresh, Daemon/Life the running daemon as a
--                    step relation of whole requests, Daemon/Busy that of requests that interleave,
--                    Daemon/Ports the map of recipes up to the order of its entries
--   Control          internal/control: the /creds/ handler (creds_handler) and Client.Creds
--                    (client_creds); Control/Status is the /status handler and deriveState of
--                    cmd/status.go
--   Replay           internal/replay: Run (run_all), RunCorpus (run_corpus); Replay/Verdict is
--                    statusesDiffer and the exit rules of cmd/replay.go
--   Command          cmd/socket.go, header.go and identities.go: attachClient (attach_client),
--                    sessionFor (session_for), replaySource (replay_source);
--                    Command/Table and Command/Watch are cmd/status.go: renderStatus
--                    (render_status) and the watch loop;
--                    Command/Replaying is RunE (replay_command) and runCorpus of cmd/replay.go
--   Mockauth         testutil/mockauth/mockauth.go: issue, valid and the handlers
--
-- The world outside, the servers, the network and the clock among it, is a type W that the
-- definitions take and give back. What the Go library does with it is a field of Env, NetLib,
-- Config, Readers, Jars, Files, Wire, Rfc3339, Builder, Runner, CertLib, Sources, Chrome, Parts,
-- Machine, Net, Tool, Printer or Web. A time is the count of nanoseconds since the zero time, and a
-- duration is such a count. The loops of the source are loops over lists, but for three. The poll of
-- a browser login runs on fuel, 301 rounds for a timeout of 60 seconds and 1501 for 300, since a
-- round that does not end the poll takes a tick of 200 milliseconds from the time that the run has
-- left. The proactive refresh and the watch command run for a number of ticks, any number, that
-- they live through. Go compares sessions by pointer; Store/Entry gives each session that is stored
-- a fresh address. A Go map is a list of entries, and a range over it goes in the order of that
-- list; Daemon/Ports has the quotient that forgets the order. In Daemon/Life each request, tick or
-- change of the world comes to its end before the next; in Daemon/Busy the actions of several
-- requests follow one another in any order, where one call of the store, one request and its
-- answer, and one access to the token cache are an action each.
--
-- Upper and lower case are those of ASCII, which the methods, schemes and header names that the
-- program compares are made of; loadRequests, which takes its methods from any text, has ToUpper as a
-- parameter. White space is that of Unicode.
--
-- Not modelled: the parsing of the command line, log lines and printing; the test server in e2e.
pub mod Prelude
pub mod Text
pub mod Http
pub mod Httpx
pub mod Effect
pub mod Session
pub mod Recipe
pub mod Store
pub mod Gateway
pub mod Corpus
pub mod Config
pub mod Daemon
pub mod Control
pub mod Replay
pub mod Command
pub mod Mockauth
