-- ===== src/Lib.antt =====
-- The verification library of go-concurrency-limits, which bounds the number of requests in flight
-- and adapts the bound to what it measures. Paths are from the root of the repository.
--
-- A limiter (limiter/) is asked for a slot before each request and is told afterwards how it went. It
-- holds a strategy (strategy/), which counts the slots and refuses above a limit, and a limit
-- algorithm (limit/), which estimates that limit from round-trip times collected in sample windows
-- (measurements/). Blocking limiters wrap another limiter and make the caller wait.
--
-- - Base: Boolean tests, lists over native numbers, Go's int32 and int64 with wrap-around (Base/Int),
--   and float64 as a parameter with the laws of IEEE 754 that are relied on (Base/Float), which are about
--   finite arguments where infinities behave otherwise.
-- - Core: core/strategy.go. StrategyToken (release is Release), and the interface Strategy with its
--   laws IsLawful, which the modules Lawful of the strategies fill.
-- - Strategy/Precise: strategy/precise.go; each method is atomic under its mutex. Strategy/Simple:
--   strategy/simple.go; Threads takes each atomic access of TryAcquire as a step of its own.
-- - Strategy/Lookup: strategy/lookup_partition.go. Partitions stand in a heap, as pointers share them;
--   a call through nil is none. The range over the map is in the order of the list that stands for it.
-- - Strategy/Predicate: strategy/predicate_partition.go, in the same way. Strategy/Matchers:
--   strategy/matchers/string.go.
-- - Measurements/Window: measurements/immutable_sample_window.go. Measurements/Averages: single.go,
--   exponential_average.go and minimum.go there. Measurements/Moving: moving_average.go, moving_variance.go
--   and windowless_moving_percentile.go.
-- - Limit: core/limit.go (Interface), limit/fixed.go and limit/settable.go (Fixed), limit/aimd.go (Aimd),
--   limit/windowed.go (Windowed), limit/gradient.go (Gradient), limit/gradient2.go (Gradient2),
--   limit/vegas.go (Vegas), limit/functions/ (Functions).
-- - Limiter/Default: limiter/default.go over any algorithm and strategy. History runs it with its
--   listeners, Windows is about updateLimit, Slots makes it a delegate of other limiters.
-- - Limiter/Queue: limiter/queue_blocking.go over any limiter. A goroutine has a status, which says
--   where in tryAcquire it stands; the unblock that holds the mutex has one too, in Queue/System, and a
--   step is what either does between two points where others may run. A call of the wrapped limiter is
--   one step. System/Alone is about an unblock that no other step interrupts; System/Invariant and
--   System/Hold have the invariant, and System/Goroutine and System/Moves the steps.
-- - Limiter/Blocking: limiter/blocking.go, limiter/deadline.go and limiter/delegate_listener.go, in the
--   same way; notify channels are numbered, and the count of reports is for the theorems only.
-- - Patterns/Pool: patterns/pool/. The constructors put the limiters together; Delegate is the default
--   limiter that FixedPool builds, and Capacity runs it under the queue.
-- - Middleware: what http/ and grpc/ share: a token, the call, and the switch that reports. Options: how
--   functional options make a configuration. Http: http/http.go and http/option.go; Grpc: grpc/grpc_unary.go,
--   grpc/grpc_streaming.go and the two option files. Handlers, transports and streams are the caller's and
--   stand for how they end: with a value, or by a panic, which passes the report by.
-- - Metrics: metric_registry/. Table: the maps by ID. Datadog: datadog/registry.go, with what its polling
--   goroutines do (Pollers) and which listener a registration returns (Listeners). Prometheus:
--   prometheus/registry.go, with its tags (Tags). Gometrics: gometrics/registry.go, over what it has in
--   common with Datadog. Base/Bytes has the texts, as lists of bytes.
-- - Tests: concrete runs and applications of the theorems.
--
-- A pointer receiver that is mutated is an argument and a result. Clock readings are arguments. Loops
-- are structural recursion, so that no fuel is used. Loggers, metric samplers, observers of a
-- limit (NotifyOnChange) and String methods are not modelled: they do not change what the components
-- decide.
--
-- Not modelled: limit/traced.go, which logs and delegates; core/metric_registry.go, whose samplers only
-- report; core/limiter_registry.go, an interface; and examples/.
pub mod Base
pub mod Core
pub mod Strategy
pub mod Measurements
pub mod Limit
pub mod Limiter
pub mod Middleware
pub mod Patterns
pub mod Metrics
pub mod Tests
