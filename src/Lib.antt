-- ===== src/Lib.antt =====
-- The services of the wallet monorepo: a wallet with currency exchange, its exchange rates, the
-- notifications of large transactions, and the making and aggregation of page views.
--
-- How the parts interact. gw-currency-wallet serves HTTP over Postgres; it asks gw-exchanger for rates
-- over gRPC and keeps them in a cache, and publishes large transactions to Kafka. gw-notification reads
-- those events and stores them in Mongo. pv-producer makes up page views and sends them to Kafka;
-- pv-aggregator reads them, buffers them and writes them to ClickHouse, and sends what is invalid to a
-- topic of dead letters.
--
-- Files, and the code that each is about (paths from the repository's root):
-- - Base, with Base/*: numbers, lists, signed integers (Int), texts and broker lists (Text), results, and
--   Go maps (Dict), shared by all.
-- - Sql: a Postgres connection. A statement is a function on the tables; each round trip may be
--   answered, be refused, or lose its answer.
-- - Wallet, with Wallet/*: gw-currency-wallet/internal. Money has the amounts, Db the tables and the
--   statements of repo_auth.go, Repo the methods of AuthRepo, Client ExchangerClient of
--   grpcclient/exchanger_client.go, Publisher the Publisher of kafka/publisher.go, Auth the packages auth
--   and http/middleware, Http what the handlers share, Balance, Accounts, Exchange and Health the
--   handlers of handler_balance.go, handler_auth.go, handler_exchange.go and handler.go, Routes
--   routes.go.
-- - Wallet.Ledger: the balances as a function of wallet and currency, which AuthRepo implements.
-- - Legacy: the wallet with one integer balance in service.go, repo_postgres.go and handler.go of the
--   same package, which no route reaches.
-- - Exchanger: gw-exchanger/internal, from the query to the gRPC handler.
-- - Notification, with Notification/*: gw-notification/internal. Store is storage/mongo/mongo.go, Consumer
--   consumer/consumer.go, Health health/handler.go, Delivery what becomes of a published event,
--   Collected what the simple mode stores.
-- - Aggregator, with Aggregator/*: pv-aggregator/internal. Event has the events and rows, Buffer
--   agg/buffer.go, Dlq dlq/producer.go, Pipeline the shared state of kafka/consumer.go and its retried
--   writes, Threads its goroutines, Server http/server.go.
-- - Producer, with Producer/*: pv-producer. Event has internal/model/event.go, Generator
--   internal/generator/generator.go, Metrics, Broker and Kafka internal/kafka/producer.go, Threads its
--   methods as threads, Control internal/http/server.go, Loop runGenerator of cmd/app/main.go, Delivered
--   a message as the aggregator fetches it.
-- - Startup: the loops of gw-exchanger/cmd/app/main.go and gw-currency-wallet/cmd/app/main.go that
--   connect to Postgres.
-- - Config, with Config/*: the five services' config.go.
--
-- State and time. The state of a service is passed on explicitly. What the source cannot decide is an
-- input: what becomes of each round trip, whether a context is done at each look at it, what passes on a
-- clock, what a reader fetches, what math/rand and uuid draw, and what encoding/json makes of a body. The
-- inputs are lists or functions, and past the end of a list every round trip is answered and no context
-- is done; so a theorem over all of them covers every behaviour.
--
-- Numbers. A float64 is the decimal numeral it prints as, in units of 10^-340, which no float64 is finer
-- than; its products and quotients are the parameter FloatOps, since their rounding is IEEE's. A
-- NUMERIC(18,2) is a whole number of cents within 18 digits. Integers of Postgres are checked against
-- BIGINT where they are added to. Kafka offsets, user ids and counters are naturals without a bound.
--
-- Loops. The retry loops have the source's number of attempts as the structural argument (3 by default
-- in Publish, 5 inserts, 10 dead letters), so they end by definition. The loops that run until a context is
-- done take a list: of sessions in Notification.Consumer.reconnect, of turns in
-- Aggregator.Threads.schedule and Producer.Threads.schedule, of ticks and requests to /control in
-- Producer.Loop.run_generator. Startup.connect_loop runs until a deadline on fuel, one round more than the timeout has seconds: every
-- failed attempt takes 2 seconds or more.
--
-- Concurrency. Aggregator.Threads lets Run, flushLoop and Close take their turns in any order. A step is
-- one use of the buffer, one retried write or one commit. Wallet.Client.locked_part is what a caller does
-- under the cache's lock, and Wallet.Client.Refreshes.steps has the looks of any number of callers in any
-- order. Producer.Threads lets a write end in a later turn than it began in, with anything in between; of
-- the sends of the one generator it allows more orders than there are. Requests to /control are
-- served between the ticks of Producer.Loop. The handlers of the wallet run one after the other; Postgres
-- serialises their statements.
--
-- Libraries. bcrypt and jwt are the parameter Crypto, with the law HasTokens where a theorem needs it;
-- net.ParseIP, time.ParseDuration and the reading of "%f" are function arguments. The writer of kafka-go
-- tries up to 10 times within one WriteMessages, so what it brings may come more than once: as often as
-- Wallet.Publisher.Write says, and up to nine times again in Producer.Broker. A dead letter counts once
-- however often it came. ClickHouse deletes rows after the TTLs of init/clickhouse-init.sql; the tables of
-- Aggregator.Pipeline are the rows that have been inserted, deleted since or not.
--
-- Not modelled: pv-tools/kdiag, the ClickHouse client of pv-aggregator, the rest of the main programs
-- (wiring, signals and the creation of topics), the generated gRPC code, and the opening and closing of
-- connections.
pub mod Base
pub mod Aggregator
pub mod Sql
pub mod Startup
pub mod Wallet
pub mod Legacy
pub mod Exchanger
pub mod Config
pub mod Notification
pub mod Producer
