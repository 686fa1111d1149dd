-- ===== src/Lib.antt =====
-- A verification library for the backend of this repository (Python, src/app/).
--
-- Modelled are, first, the live trading runtime: a controller publishes which symbols each shard
-- trades, workers read the symbols of their shard and take a lease on each before they trade it,
-- operators set flags that stop a symbol, a contract or everything, and a change of a contract is
-- published and revokes it. The processes share one key-value store, and nothing else. Beside it
-- stands the executor of one strategy, which reads bars, asks the strategy and submits orders to the
-- broker. Then the universes of symbols, whose constituents change over time; the planner that deals
-- the symbols of a dataset out to shards, one job each; the grouping of the runs of a backtest into
-- shards, the merge of their reports and the reconciliation of jobs with their workflows; and the
-- folds in time on which a daily forecast is trained and tested.
--
-- Base/               texts as lists of code points (case and spaces are ASCII's), sets of texts as
--                     increasing lists, dictionaries as association lists, exceptions as values
-- Live/Backend.antt   src/app/live/assignments.py, `InMemoryRedisBackend`: the store, as a record
--                     of a dictionary of values and a dictionary of sets; a function per method
-- Live/Leases.antt    src/app/live/leases.py, `RedisLeaseStore`; Leases/Payload.antt has the JSON
--                     form of a lease. A request's outcome is split into what is read and what is
--                     done with it (`acquire_after_read`), so that calls can be interleaved
-- Live/Controls.antt  src/app/live/control_flags.py and src/app/live/revocation.py
-- Live/Assignments.antt
--                     src/app/live/assignments.py, `RedisAssignmentStore`, and
--                     src/app/live/assignment_publisher.py; the digest is a parameter
-- Live/Worker.antt    src/app/live/worker.py, `WorkerRuntimeCoordinator`: its fields, the shared
--                     store and the log of its events are a record; `iterate` is one turn of
--                     `run_forever`, `drain` is `drain`
-- Live/Session.antt   src/app/live/session.py, `WallClockSessionCalendar`, on the local wall clock
-- Live/Controller.antt
--                     src/app/live/controller.py, `ContractsControllerService.sync_once`: it uses
--                     the assignments and the calendar, and writes what the workers read
-- Backtests/Sharding.antt
--                     src/app/backtests/sharding.py: `resolve_split_by`, `_collect_runs_by_split`
-- Live/Executor.antt  src/app/live/executor.py, `AlpacaStrategyExecutor`: Position is the sync with the
--                     broker, Orders the order of a decision, Process `process_latest_bar`; Steps
--                     lists the ways in which a call ends, Ways shows that these are all
-- Strategies.antt     src/app/strategies/core.py and candidates.py: what the executor and a strategy
--                     share
-- Universes.antt      src/app/universes/service.py: the constituents of symbol universes over
--                     time; Registry is the registry (registry.py) and its synchronisation, Keys and Records
--                     the universes of users and the refresh runs
-- Forecast/WalkForward.antt
--                     src/app/daily_index_forecast/walk_forward.py: the windows and the folds. The
--                     loops run on fuel: the sum of the windows and the number of days, each with
--                     one more, are enough, by the theorems of Windows and Folds
-- Backtests/Reconciler.antt
--                     src/app/backtests/argo_reconciler.py, with the marks of service.py and the
--                     repository of persistence.py
-- Backtests/Merge.antt
--                     src/app/backtests/merge.py: the merge of the reports of shards
-- Live/Contracts.antt src/app/contracts.py and src/app/contract_mutations.py: the contracts that the
--                     publication and the revocation are about
-- Shards.antt         src/app/datasets/sharding.py: `normalize_dataset_symbols`, the estimates,
--                     `_build_symbol_groups`, `_split_groups_to_symbol_limit`
-- Shards/Plan.antt    the same file: `build_dataset_shard_plan`, and the validators of
--                     `DatasetShardSpec` and `DatasetShardPlan`
--
-- Instants are numbers of microseconds, dates are day numbers, identifiers are texts. Numbers are
-- natural: the code's counts, versions and limits are taken to be at least 0. A call that raises
-- returns `raises`; a store that a raising call had changed is modelled of the executor only. One
-- call of a store's method is a step that no other process interrupts, and so is one of a lease
-- store's methods, except in Live/Leases/Race.antt. Fuel is used in the loops of
-- Forecast/WalkForward.antt; in `decimal`, with the number itself, since each digit divides it by
-- ten; and in `chunks`, with the length of the group, since each chunk takes a symbol off. A table of
-- the database is a list of rows or a dictionary, and a commit the value that is returned; that the
-- database refuses a text that is longer than its column is modelled where a user universe is created,
-- and nowhere else. A save of the executor's snapshot that raises leaves the file as it was.
--
-- The digests (SHA-256 for shards, SHA-1 for names of files) are parameters, any function. Not
-- modelled are the client of Redis, HTTP, the engine of the database, the broker and the market data,
-- which are other programs; the files that the planner and the executor write, but for what is read
-- back; and the other parts of the backend (the service of backtests, engine, forecasts, risk,
-- the strategies themselves, the HTTP routes), most of which is data frame and model code.
pub mod Base
pub mod Live
pub mod Shards
pub mod Backtests
pub mod Universes
pub mod Forecast
pub mod Strategies
