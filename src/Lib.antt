-- ===== src/Lib.antt =====
-- A model of the task queue: tasks are put on Redis streams, consumers run them with retries and a
-- dead-letter stream, and an HTTP server watches over them and replays what failed.
--
-- How the parts interact. A producer (Producer) encodes a task (Task) and adds it to a stream
-- through the store interface. A consumer (Consumer, PriorityConsumer) handles the messages that its
-- pool of workers (Pool) takes from a channel: it decodes the task, asks the idempotency checker,
-- runs the task's code, and then acknowledges the message or adds the task again, to its stream or
-- to the dead-letter stream. The server (Api) moves tasks back from the dead-letter stream. The
-- services behind the interfaces are those of RedisAdapter. Config reads the settings.
--
-- Which file models which code:
--   Task/Defs, Task/Json, Task/Codec   task/task.go: Task, Event, Marshal, Unmarshal
--   Task/Store                         task/store.go: the interfaces, StreamMessage
--   Metrics                            metrics/metrics.go: the counters
--   Consumer                           consumer/consumer.go: New, WithIdempotency, processMessage,
--                                      handleTaskFailure, acknowledge, publishEvent, worker
--   Pool                               consumer/: Start, fetchTasks, worker of both consumers
--   PriorityConsumer                   consumer/priority_consumer.go: processMessage, worker
--   PriorityConsumer/Fetch             consumer/priority_consumer.go: Start, fetchTasks
--   Producer                           producer/producer.go, producer/priority.go
--   RedisAdapter, RedisAdapter/Client  redisadapter/, event/publisher.go, the go-redis client
--   RedisAdapter/Streams, /Entries,    what Redis documents of its commands
--   /Groups, /Pending, /Idempotency
--   Api/Http                           what the handlers use of net/http
--   Api/Limiter, Api/Middleware        api/middleware.go
--   Api/Server                         api/server.go: the handlers and the chain
--   Api/Server/Serving                 api/server.go: the end of Start
--   Config, Config/Strconv             config/config.go, strconv and strings
--   Main                               main.go: the wiring, the simulated code, produceMockTasks
--   Main/Process                       main.go: the goroutines, the signal, the exit
-- The other files prove properties, and Tests applies them to concrete inputs.
--
-- How the code is modelled. A call of a service is an action on a world `W`, a function from a
-- world to a result and a world; a method is a definition over a record of such services, with one
-- action for each call that the method makes, in its order. Properties of methods hold in the
-- recorded world of Calls, where an arbitrary environment gives the reply to every call and the log
-- of calls is the world, or, over the Redis adapter, in any world. A Go `int` is an integer whose
-- increment wraps at 64 bits. A byte string that is JSON is known up to its value; texts of
-- instants are a parameter, TimeFormat, with the law that what is written is read back. Clock
-- readings are arguments. A worker's calls are those of one goroutine; Consumer/Durability takes
-- what other workers do during a call as part of that call. What Redis documents of a command is a
-- law of a record that a theorem takes: Streams (XADD), Entries (XRANGE, XDEL), Groups
-- (XREADGROUP), Pending (XACK) and Idempotency.Keys (SET NX) of RedisAdapter.
--
-- Bounds and fuel. Printing a number in decimal takes `n + 1` rounds, since every round divides by
-- ten; Consumer/Lifecycle follows a task for as many deliveries as its fuel says, and shows how
-- much is enough, and PriorityConsumer/Lifecycle likewise. Pool/Termination bounds the steps of a
-- shutdown. All other recursion is structural.
--
-- Not modelled: logging; durations that are only observed; contexts, but for a task's deadline and
-- the cancellation of Pool, Api/Server/Serving and Main/Process; the registration of metrics;
-- listening, closing connections and the subscription of the event stream, which are calls of
-- net/http and go-redis; the dashboard and the tests. A text is a list of characters: a Go string
-- that is no UTF-8, in which encoding/json replaces each bad byte by U+FFFD, is outside the model.
pub mod Common
pub mod Task
pub mod Metrics
pub mod Calls
pub mod Consumer
pub mod Producer
pub mod PriorityConsumer
pub mod Api
pub mod Config
pub mod RedisAdapter
pub mod Pool
pub mod Main
pub mod Tests
