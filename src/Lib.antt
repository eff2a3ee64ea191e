-- ===== src/Lib.antt =====
-- smaug is a reverse proxy that wakes servers on demand and puts idle ones to sleep. This library
-- models its core.
--
-- The parts and how they interact. The configuration (internal/config) lists servers and routes.
-- The route manager (internal/proxy/route_manager.go) keeps an HTTP listener per route and, on a
-- signal of the configuration manager, applies the difference between the listed routes and the
-- configured ones. The handler of a route is a reverse proxy that records activity in the idle
-- tracker; for a server with Wake-on-LAN it stands behind a wake coordinator, which reads the
-- health store and sends commands with the Gwaihir client. The health manager's workers write the
-- health store. The idle tracker puts the names of idle routes into a channel; the sleep
-- coordinator takes them out and has the sender of cmd/smaug/main.go send the sleep command of the
-- route's server.
--
-- Prelude models Go's values: strings are byte lists, `int` and `int64` are integers with the
-- wrap-around written out where the code can overflow, a time is a number of nanoseconds with 0
-- for the zero time, a map is an association list.
-- Config/Types and Config/Validation are internal/config/types.go and validation.go,
-- Config/Substitute and Config/Loader substitute.go and loader.go. Config/Manager is
-- internal/config/manager.go: `watch` is a turn of the loop of watch, `fire` the timer, and
-- `reload` goes from one call of a callback to the next; Machine gives the interleavings.
-- Proxy/Reload is internal/proxy/reload.go: `detect_changes` is detectChanges, its loops are
-- `index_routes`, `classify`, `note_removed`.
-- Proxy/RouteManager is internal/proxy/route_manager.go: listeners stand in a heap, since the list
-- and the map of routes share them by pointer. Each method is a function on the state of the
-- manager; Changes is handleReload and applyRouteChanges, Status the status calls. Goroutines is
-- the transition system of runListener with its probe, for one listener; its steps are also steps
-- of Runs and of Proxy/Watcher.
-- Proxy/Watcher puts the configuration manager and the route manager together: the goroutine of
-- watchConfigReloads takes the signal and reloads the routes.
-- Proxy/WakeCoordinator is internal/proxy/wake_coordinator.go: `ensure_wake` is what ensureWake
-- does under the lock, and the goroutine of a wake is the steps `wol_sent`, `wake_polls`,
-- `wake_ends`. Machine gives the interleavings.
-- Proxy/IdleTracker, Proxy/SleepCoordinator and Proxy/Handler are internal/proxy/idle_tracker.go,
-- sleep_coordinator.go and proxy.go.
-- Proxy/IdleSleep puts the idle tracker and the sleep coordinator together over the channel
-- between them: a round of checks is a step for each route and one for each count, and the loop
-- takes a trigger and calls the sender in two. Proxy/Answers is what a client of a route is
-- answered: the handlers of proxy.go and ServeHTTP of the coordinator as trees of calls, in the
-- order in which createListener wraps them.
-- Client/Gwaihir and Client/Sleep are internal/client/gwaihir and internal/client/sleep.
-- Health is internal/health and internal/store: Checker one check, Manager the workers, Loop the
-- goroutine of one, Store what they write.
-- Middleware is internal/middleware: a handler is a tree of the calls that it makes of its
-- response writer (`Script`), `logged`, `counted` and `recovered` translate it, and `serve` is
-- what net/http makes of it.
-- Management is internal/management: Handlers the handlers of the probes, Server the life of the
-- server for health as steps of callers and goroutines, Metrics the server for metrics.
-- Infrastructure is internal/infrastructure: the levels of the logger, and what the metrics
-- registry registers and records, over an interface of the Prometheus library.
-- Cmd is cmd/smaug/main.go: the set-up for idle routes and its sleep sender, Wake the set-up for
-- waking, Run the order of `run` with its deferred stops, Setup the init functions of the
-- managers, Shared a server that two routes share.
-- Tests runs the theorems on concrete inputs.
--
-- Bounds and fuel. `retry_loop` recurses on the attempts that are left, which is the bound of the
-- Go loop; `grow` on the rounds of the loop of Backoff. Poll loops and event loops recurse on the
-- list of the events that a select takes. Loops over lists and maps recurse on them; the order in
-- which Go ranges over a map is an argument. No other fuel is used.
--
-- Parameters. Reading the configuration file, the environment, YAML decoding, the events of
-- fsnotify, URL, address, base64 and JSON parsing, letter case, what the network answers, how a
-- listener comes up and shuts down, the jitter, and the choices of a select are arguments of the
-- definitions.
--
-- Not modelled: the logging methods, which only call slog, durations that are only logged or
-- observed, the reverse proxy itself, which is a library, and steps of a listener's goroutines
-- that come while one call of Start, Stop or handleReload is under way.
pub mod Client
pub mod Cmd
pub mod Config
pub mod Health
pub mod Infrastructure
pub mod Management
pub mod Middleware
pub mod Prelude
pub mod Proxy
pub mod Tests
