-- ===== src/Lib.antt =====
-- dgou-framework: a Go framework for web services. This library models the logic of its packages
-- and proves what makes them correct. Paths are from the repository's root.
--
-- The program. cmd/server/main.go and pkg/bootstrap wire the components together: a cache
-- (pkg/cache, in memory or on Redis), the authentication manager (pkg/auth) that keeps its refresh
-- tokens in the cache, a task pool (pkg/async), a queue (pkg/queue, RabbitMQ or Redis), uploads
-- (pkg/upload) to a local directory or to OSS, a database with replicas (pkg/database), HTTP
-- middleware (pkg/middleware), answers and shutdown (pkg/app), configuration (pkg/config), errors
-- (pkg/errors), logging and metrics.
--
-- Which file models what:
--   Base                     numbers, Go strings as byte lists, Go maps as functions into Option,
--                            int64 with wrap-around, strconv, tests, options applied in order
--   Cache/Memory             pkg/cache/memory.go: NewMemory is new_memory, Set, Get, Delete, Exists,
--                            Incr and Decr are set, get, delete_key, exists, incr and decr; the
--                            eviction loop is make_room; Cache/Recency is what it is compared with
--   Cache/Redis              pkg/cache/redis.go: the methods under their names; prefixed is what the
--                            operations on sets, hashes and lists send
--   Async/Task               pkg/async/async.go, Task: execute is the machine step, Cancel is
--                            cancel_task, Result is task_result
--   Async/Pool               pkg/async/async.go, Pool: Start, Stop, Submit, and the steps of dispatch
--                            and of worker.run, of which some are coarser than the code (see there)
--   Middleware/RateLimiter   pkg/middleware/rate_limiter.go: a request is handle, the ticker's round
--                            is cleanup
--   Middleware/Cors, Middleware/Auth   pkg/middleware/cors.go and auth.go
--   Middleware/Chain         pkg/middleware/recovery.go, request_id.go, security.go, logger.go, and the
--                            handler of pkg/monitor/monitor.go, as functions of the next handler
--   Errors                   pkg/errors/errors.go
--   Config                   pkg/config/config.go: the structures are Config/Types, their tags
--                            Config/Decode, setDefaults is Config/Defaults, Load is Config/Load
--   App/Response, App/Answers   pkg/app/response.go: pages and errors; success, shortcuts, the log of
--                            errors
--   App/Shutdown             pkg/app/shutdown.go
--   App/Instance             pkg/app/app.go: App, its setters, what it registers, Start and Shutdown;
--                            App/Requests is a request through the default handlers
--   Bootstrap                pkg/bootstrap/bootstrap.go: Init is init, its closer is closer; what each
--                            component is given is Bootstrap/Settings, and cmd/server/main.go is
--                            Bootstrap/Exit
--   Database                 pkg/database/database.go: New, Slave, Close; pkg/database/model.go is
--                            Database/Model
--   Upload/Validator, Upload/Manager, Upload/Local   pkg/upload/validator.go, upload.go with the
--                            types of storage.go, and local.go; Upload/Local/Paths is filepath.Join
--   Upload/Escape            the manager and the local storage together; Upload/Local/Contained is what
--                            the storage may change
--   Upload/Oss               pkg/upload/oss.go: Put, GetURL, Copy, Move
--   Auth/TokenCache, Auth/Manager   what pkg/auth needs of pkg/cache/cache.go, as an interface that
--                            the in-memory cache fills, and pkg/auth/auth.go
--   Queue/Options, Queue/Rabbit   pkg/queue/options.go and rabbitmq.go: the ten operations are call,
--                            the goroutine of Consume is Rabbit/Delivery, the inner loop of
--                            reconnector is Rabbit/Reconnect, connect is Rabbit/Connect
--   Queue/Redis              pkg/queue/redis.go: Publish, and the rounds of Consume
--   Tests                    runs at concrete inputs
--
-- How the code is read. A method that holds a mutex is one function from the state to the new state
-- and the results; code that other goroutines may interrupt is a machine with one step for each
-- access of shared state, except where a file says that a step is coarser, and a list of events is
-- an interleaving. Clocks, UUIDs and what a
-- goroutine is given from outside are arguments. Errors are values of a sum; a run-time panic is a
-- flag of the state or `none`. Code of third parties is an argument: signing and parsing of tokens
-- (Jwt, with JwtLaws for what is relied on), the AMQP channel, the lists of Redis (RedisLists), the
-- client of the Redis cache (RedisClient, with LockLaws and FrameLaws), viper (ViperLib), the storage behind an
-- upload, opening and closing database connections; Outside gathers what Init asks of them.
-- sort.Slice is a record of what its documentation promises for any less function (Sort), and
-- container/heap with the slice operations of priorityQueue is one for any Less (HeapOver).
--
-- Bounds. int64 sums of the cache's values and of the pages wrap; the count of used bytes is an
-- integer without a bound. The eviction loop runs on fuel, one round more than the list is long;
-- each round removes an element, so that is enough (Cache/Memory/Eviction). All other loops are by
-- recursion on a list or on the number of attempts that are left.
--
-- Not modelled: reading and deleting on OSS, watching the configuration, opening of connections,
-- logging, metrics, the HTTP server itself, since these are calls of other packages; directories
-- and metadata of files; the values that QueueInspect returns; errors of the client in the Redis
-- queue, of Revoke, and of Unlock; the wait of Pool.Stop for its workers, and a dispatcher that
-- outlives it beside that of a later Start. Concurrent calls of a cache's Get between its two
-- critical sections are not interleaved.
-- Character case is ASCII's. The values of the handlers' results and of payloads are numbers.
pub mod Base
pub mod Cache
pub mod Async
pub mod Middleware
pub mod Errors
pub mod Config
pub mod App
pub mod Database
pub mod Upload
pub mod Auth
pub mod Queue
pub mod Bootstrap
pub mod Tests
