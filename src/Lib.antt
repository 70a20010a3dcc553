-- ===== src/Lib.antt =====
-- contentv1 is a crawler: it counts the visits of urls, puts the most visited ones that may be
-- fetched into a queue, fetches them politely, and tells which groups of queries the fetched pages
-- hit. Clients set the groups and read the hits through an HTTP API. A scheduler (src/scheduler)
-- owns the tables and decides; workers (src/worker) read the queue, ask the scheduler before each
-- fetch, and tell it the result. Visits come in through a queue too and are counted by url for the
-- last hour, the last day and the last 14 days. A worker also matches the stored pages with the
-- groups and stores the hits of each group, which the API (src/api/v1) reads. A worker on another
-- machine talks to the scheduler through gRPC (src/scheduler/rpc).
--
-- Core has the value types and counters of src/core. Core/Window is `TpSlidWin`, Core/FreqMap is
-- `UrlFreqMap`, Core/FreqStats is `LastPerMaps`, `UrlFreqStats` and `reduceUrlFreqs`,
-- Core/FreqStatsLf is `UrlFreqStatsLF`, Core/Attempts is `CrawlAttempts` and its dump,
-- Core/HostFreq is `CrawlLimits` and `HostFreq`, Core/Records is `GFQRecord`, `FetchResult` and
-- `FetchStats`, Core/Records/Pb their protobuf forms, Core/Url is `UrlParsed` and `Robots`,
-- Core/QueryGroup is `QueryGroup` and `QueryGroupHits`, Core/Matcher is `QueryGroupMatcher` and
-- `QueryLoop::_query`. Ldb has the tables of src/ldb: Ldb/HostDb is `HostDb`, which every fetch
-- asks for permission, Ldb/UrlDb is `UrlDb` with the crawl policy and the snapshot, Ldb/UrlsDays
-- is `UrlsDays`, Ldb/UrlsDaysDb is `UrlsDaysDb` with its queue and its snapshots, Ldb/Dumps is how
-- `UrlDb` and `UrlsDaysDb` are written to and read from LevelDB, Ldb/CrawledDb is `CrawledDb` with
-- the results of a day that it reads back, Ldb/QueryDb is `QueryDb` with the groups and their
-- hits, Ldb/PageDb is `PageDb`. Scheduler has src/scheduler/default: Scheduler/Enqueue is
-- `EnqueueLoop`, of which Scheduler/Enqueue/Loop is one whole round, and Scheduler/Api,
-- Scheduler/OnFetched and Scheduler/Stats are `Scheduler`, Scheduler/LoadLoop is `LoadLoop` with
-- `_fillUrlFreqStats`, Scheduler/Start is the end of the constructor of `Scheduler`,
-- Scheduler/Stub is `SchedulerStub`. Scheduler/Rpc is `SchedulerClient` and what `SchedulerServer`
-- does with a call, Scheduler/Rpc/CallData is the state machine of its call data. Worker has
-- src/worker: Worker/ReqBatch is `ReqBatch` and Worker/FetchLoop is `FetchLoop` with the callbacks
-- of its merge queue and Worker/QueryLoop is a round of `QueryLoop`. Api has src/api/v1:
-- Api/Parsing and Api/Crypto are the headers and the tokens of `APIv1`, Api/Response its answers,
-- Api/Handlers its handlers and Api/Server its routes with the wrapper that `_setupServer` puts
-- around the handlers. Kafkawrap is src/kafkawrap, the readers of the two queues, with the JSON
-- form of a visit. Scylla is src/scylla, the page store of `sched` and `workd`. Bin has the three
-- programs of src/bin: Bin/Args their arguments, Bin what each of them does. The files below a
-- module have its theorems.
--
-- State is passed explicitly. A method that locks a mutex for its whole body is one step. A call
-- of the clock is an argument. A time is a number of nanoseconds, an instance of `Tp`; a
-- difference of times stops at 0, which the source's tests do not tell from a negative one. Counts
-- are numbers where they cannot be negative, and signed numbers where they can; the conversions to
-- `int` and to `size_t` that the code makes are written out. A map is an association list, whose
-- order stands for the order in which an unordered map is walked. An exception is a `Result` of
-- its own.
--
-- Two loops are not structural in the source. The loop of `searchTop` doubles its `top`, and stops
-- when that exceeds the number of known urls: one round for each known url and one more are
-- enough. The loop of `_sendToCurl` takes at least one record from its batch: one round for each
-- record is enough. The loops over queues and lists end with them.
--
-- LevelDB, the Scylla driver, protobuf, gRPC, JsonCpp, simdjson, boost's options, the http
-- library, base64, `std::hash`, the url parser, the robots.txt matcher, the trie and the submodule
-- src/misc are not part of the repository. They are parameters: Ldb/Store and Ldb/Lvl,
-- Core/Attempts/Dump, Core/Records/Pb, Scheduler/Rpc, Core/QueryGroup, Core/Url, Core/Matcher,
-- Scylla, Kafkawrap, Bin/Args and Misc say what is relied on, and Tests has an instance of each. A
-- write to LevelDB may fail: for the groups and their hits (Ldb/Lvl) the error is returned; the
-- robots.txt files and the snapshots of urls go on after it, and a snapshot of the days ends. The
-- iterators over LevelDB are taken to end without an error. Not modelled: threads and sleeps,
-- which Worker and APIv1Wrap put around the rounds of the loops, the start of the rpc server and
-- its shutdown but for the flag, the configuration with what the constructors read from it, and
-- what a failed start of a part leaves behind: Bin has it as the outcome of an action.
pub mod Prelude
pub mod Core
pub mod Ldb
pub mod Misc
pub mod Api
pub mod Scheduler
pub mod Worker
pub mod Kafkawrap
pub mod Scylla
pub mod Bin
pub mod Tests
