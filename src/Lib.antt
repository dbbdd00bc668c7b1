-- ===== src/Lib.antt =====
-- A model of orchard-gh-bridge in antt: the program that turns GitHub Actions jobs into macOS VMs
-- on an Orchard cluster. A manager runs one bridge per runner scale set. GitHub's listener tells a
-- bridge how many runners are wanted (HandleDesiredRunnerCount) and when a job is over
-- (HandleJobCompleted); the bridge creates and deletes VMs through the Orchard client. The bridges
-- share a pool of VM slots and a cached view of Orchard's state, and a clean-up loop sweeps both
-- every so often: it reaps VMs, sets the pool to what it sees, and prunes the records of workers
-- that are gone.
--
-- The files and the code that they model:
--   * Base: numbers (Go's int with its wrap-around, Base.Int), texts, maps as association lists,
--     times and durations, and errors as values. A call of an outside service is a function of the
--     state W of the world, `Io W A`.
--   * Config: config/config.go. Config has the records, Config.Durations the durations with their
--     defaults, Config.Validate Validate, Config.Load Load with defaults and environment.
--   * Orchard: orchard/types.go and the interface Client; Orchard.Official: officialClient of
--     orchard/client.go over the controller's client library; Orchard.Official.Dial: NewClient.
--   * Bridge: the package bridge. Name and Script: bridge/vm.go. Capacity: bridge/capacity.go.
--     Live: bridge/worker.go. Labels: the label tests and slot sums of bridge/cleanup.go and
--     bridge/stateview.go. AutoSize: bridge/autosize.go. StateView: bridge/stateview.go. Fleet,
--     ScaleUp, AutoScaleUp and Scaler: bridge/bridge.go (the state, the two scale-up paths and the
--     handlers). Cleanup, Prune and Sweep: bridge/cleanup.go and bridge/runner_remover.go.
--     Eligibility: bridge/eligibility.go, with the effects of Observe on its gauges in
--     Eligibility.Gauges. Journal: what Orchard did (the VMs that it created or deleted, the
--     records of workers that it deleted) as a reading of the world, with the laws of the calls;
--     Births and Deaths: what the handlers and the sweeps did by that reading. System: the bridges and the clean-up together, as steps in any order;
--     Owned and Growth: what the steps do to the active VMs of a bridge.
--   * Manager: manager/manager.go: the shares of the scale sets, the registration, the session
--     and the start of a bridge; Manager.Access: the login; Manager.Run: runScaleSet up to its
--     listener; Manager.Wiring: the clean-up that Run makes, with its callbacks;
--     Manager.Making: New.
--   * Metrics: metrics/metrics.go: the series of gauges and counters, and the escapes;
--     Metrics.Registry: the registry and its text format.
--   * Health: the answers of health/health.go. Main: main.go.
--   * Tests: runs of the code on small inputs, and each theorem at a concrete input.
--
-- State is passed explicitly: a handler takes the bridge (record Bridge) and what it shares with
-- the others (record Fleet: pool, view, queue of failed deletes) and returns both. The callbacks
-- that the manager installs are functions on the view or the queue. A method that holds a mutex is
-- one step. Callers of StateView.Get that interleave are a step relation, StateView.Calls; the
-- handlers use Get as a caller that finds no other one. In System a handler or a sweep is one step,
-- so calls of two handlers do not mix. Maps are lists without a repeated key, whose order stands for
-- the order in which Go ranges over a map. Log lines are left out.
--
-- A Go int is an integer with 64-bit wrap-around, a uint64 a natural number, a Duration an integer
-- of nanoseconds, a Time a natural number of nanoseconds whose 0 is the zero time. The loops are
-- structural recursions on the list or on the number of rounds that the code fixes; the loop for
-- the message session is looked at for ten rounds, past which the model would answer out_of_rounds,
-- and Script.decimal has one round for each digit, of which a number has at most its value plus one.
-- The wait for a first worker may last for ever: the model is given a number of rounds, and answers
-- no_fuel if it looked no further.
--
-- Parameters, since they are not code of this repository: Orchard's controller (V1Client, V1Names),
-- GitHub's scale set client and its constructors (Github, the arguments of Manager.Access and
-- Manager.Run, and three calls of Services), the listener, the UUIDs, the clock, the file, the YAML
-- parser, the environment and the print of a float64. time.ParseDuration is a parameter as well, of
-- which nothing is assumed.
--
-- Not modelled: the servers of health/health.go, metrics/metrics.go and main.go, signals and the log
-- handler, the goroutines of Manager.Run and the loop of a listener, the methods of a nil vec, the
-- recovery from a panic in processVM, and the texts of errors beyond their fixed part.
pub mod Base
pub mod Config
pub mod Orchard
pub mod Bridge
pub mod Manager
pub mod Metrics
pub mod Health
pub mod Main
pub mod Tests
