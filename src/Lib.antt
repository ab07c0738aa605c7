-- ===== src/Lib.antt =====
-- A model of Sentry Load, a service that runs load tests over a fleet of workers, and the theorems
-- that show what it promises.
--
-- The program has two parts. The coordinator (coordinator/) is an HTTP server: it logs users in
-- through GitHub, verifies the domains that they own, admits tests, splits them into sub-jobs on a
-- Redis stream, and merges what the workers report. A worker (worker/) takes sub-jobs off the
-- stream, generates the load and reports its counts and a latency sketch on a second stream. Beside
-- them stands a small server with products and reviews to aim tests at (guineapig/), which answers
-- by one query or by many.
--
-- Which file models what:
--   Coordinator/Jobs.antt           coordinator/jobs.go: splitVUs, buildSubJobs
--   Coordinator/Sketch.antt         coordinator/sketch.go: decode, merge, quantile of a histogram
--   Coordinator/Snapshot.antt       coordinator/teststore.go: buildSnapshot, combinedPercentiles
--   Coordinator/TestStore.antt      coordinator/teststore.go: the store and its methods
--   Coordinator/Persister.antt      coordinator/identitystore.go: the interface of the database
--   Coordinator/History.antt        coordinator/history.go: the interface of the test history
--   Coordinator/Postgres.antt       coordinator/history.go, coordinator/identitystore.go: the tables
--                                   and their constraints; Postgres/History.antt and
--                                   Postgres/Identity.antt are the methods, and fill both interfaces
--   Coordinator/DomainStore.antt    coordinator/domainstore.go
--   Coordinator/AuthState.antt      coordinator/authstate.go
--   Coordinator/UserStore.antt      coordinator/userstore.go
--   Coordinator/Enqueue.antt        coordinator/enqueue.go
--   Coordinator/Api.antt            coordinator/handlers.go: the server, its services, responses
--   Coordinator/CreateTest.antt     coordinator/handlers.go: handleCreateTest
--   Coordinator/Verify.antt         coordinator/verify.go and the handlers of the domains
--   Coordinator/Login.antt          coordinator/handlers.go: login, callback, requireAuth
--   Coordinator/Reports.antt        coordinator/handlers.go: the other handlers
--   Coordinator/ResultWatcher.antt  coordinator/resultwatcher.go, coordinator/helpers.go
--   Coordinator/Live.antt           coordinator/live.go
--   Coordinator/Badge.antt          coordinator/badge.go, coordinator/webhook.go
--   Coordinator/Routes.antt         coordinator/server.go, coordinator/prometheus.go
--   Coordinator/GithubAuth.antt     coordinator/githubauth.go
--   Coordinator/Setup.antt          coordinator/main.go
--   Coordinator/Capacity.antt       coordinator/capacity.go
--   Worker/Startup.antt             worker/main.go: settings, consumer group, heartbeat
--   Worker/Sketch.antt              worker/sketch.go
--   Worker/Job.antt                 worker/job.go
--   Worker/Metrics.antt             worker/metrics.go; the messages of worker/main.go and
--                                   worker/reclaim.go
--   Worker/LoadGen.antt             worker/loadgen.go
--   Worker/Queue.antt               worker/reclaim.go and the loop of worker/main.go; handleJob in
--                                   Queue/Handle.antt, many workers in Queue/Fleet.antt
--   Target.antt                     guineapig/main.go: the tables, their seed, both handlers
--   Wire/*.antt                     what one part writes and the other reads
--   Strings.antt, Strconv.antt      what the program uses of Go's packages of these names
--   Prelude.antt                    shared types, maps, tests, lemmas
--   Examples.antt                   the theorems at concrete inputs
-- The theorems about a module stand in its child modules.
--
-- How the code is modelled. A method is a function from its receiver's state to the new state and
-- its results; the locks make methods atomic, so that a concurrent run is a sequence of calls. A
-- string is the list of its bytes. A Go map is an association list, and code that ranges over a map
-- sees its entries in the order of that list, whatever it is. `int` is an integer whose overflow is
-- written out where the code can reach it, `uint64` wraps at 2^64. float64 is an interface without
-- laws. A pointer that two maps share is an address of a heap. Time and random bytes are arguments,
-- errors are values. Every function is total by structural recursion; the digits of a number are
-- written on fuel, one more than the number, which the round trips of Strconv/RoundTrip.antt show
-- to be enough.
--
-- Redis, the databases, the resolver, HTTP clients, GitHub, UUIDs, SHA-256 and the parsers of URLs
-- and addresses are parameters (Coordinator/Api.antt); what the theorems need of them are named
-- laws: `Appends` for XADD, `KeepsDomains` for the database of verified domains, which the tables of
-- Postgres satisfy (Coordinator/Postgres/Durable.antt), and `Delivers` for the consumer group.
--
-- An SQL statement is a function on tables; which statements fail, the clock and the random bytes
-- are the environment of a call. In the theorems a call of a method is one step, also that of
-- EnsureShareToken, which sends two statements. The load generator and the loop of a WebSocket are
-- functions of what happens next, so that goroutines interleave as the events do. Workers are a
-- step relation: XPENDING, each XCLAIM and XREADGROUP are steps, between which others act, and an
-- XCLAIM comes within 45 seconds of its XPENDING; a worker may renew, finish or die later. Calls of
-- publish come one after another in Queue/Handle.antt, and overlap in Queue/Overlap.antt. A
-- TIMESTAMPTZ column keeps of a time what the function `timestamp` of the environment says. Four
-- rounds of the WebSocket loop are enough for the four snapshots that a channel holds.
--
-- Not modelled: HTTP, WebSocket and Prometheus libraries, the rate limiter, the SVG around the
-- numbers of a badge, signals and shutdown, the pools and the JSON of the server to aim tests at, the
-- dashboard, and the goroutine of a notification, which the model runs at once.
pub mod Prelude
pub mod Strings
pub mod Strconv
pub mod Coordinator
pub mod Worker
pub mod Wire
pub mod Target
pub mod Examples
