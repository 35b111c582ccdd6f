-- ===== src/Lib.antt =====
-- Verification of the core of Mini-Drop: drop_server and drop_agent (C++), under drop/, the tasks and
-- agents of the apiserver (Go), under apiserver/server, and the analysis (Python), under analysis/.
--
-- The program. The apiserver writes each profiling task into its database and calls drop_server:
-- CreateTask queues the task for the agent with a given IP address; a watcher for each task asks
-- FetchData for its result every 5 seconds, and starts the analysis when the data are uploaded. Each
-- drop_agent sends a heartbeat every second; the answer may carry the oldest task of its queue. The
-- agent's worker runs `perf record`, uploads the data with `mc`, and reports by NotifyResult, which
-- the server stores for FetchData. A thread of the server scans for agents that have fallen silent.
-- The analyzer makes a flame graph and suggestions of the data of one task; a worker polls the database
-- for tasks that wait for their analysis, and runs the analyzer for them.
--
-- Where each part is:
--   Base                    shared names; Base.Dict for std::map and std::unordered_map (lookup = find,
--                           insert = operator[] and assignment), Base.Decimal for std::to_string
--   Proto                   the messages of drop/common/proto
--   Common.Log              drop/common/Log.cpp            (init, write = Init, Write)
--   Common.Perf             drop/common/Perf.cpp           (record_perf = Perf::Record, poll_loop = its loop)
--   Common.CosClient        drop/common/COSClient.cpp      (init, put_file, run_command)
--   Common.Daemon           drop/common/Daemon.cpp         (daemonize)
--   Common.Scanf            the conversions of fscanf and sscanf, and getline, on bytes
--   Common.Process          drop/common/Process.h, Process.cpp (get_stats = Process::GetStats)
--   Server.Apiserver        the posts of drop/server/HealthCheckService.cpp and InitAgentInfoService.cpp
--   Server.Hotmethod        drop/server/HotmethodService.cpp
--   Server.Control          drop/server/ControlService.cpp
--                           Control.Views has the queues as an abstract table, a quotient of the states
--   Server.HealthCheck      drop/server/HealthCheckService.cpp (heartbeat = Do, offline_scan = one round of
--                           OfflineScanLoop)
--   Server.ScanThread       its thread (scan_loop = OfflineScanLoop)
--   Server.Init             drop/server/InitAgentInfoService.cpp
--   Server.DropServer       drop/server/main.cpp: the services in one state, a step for each call or scan
--   Agent.Config            drop/agent/Config.cpp
--   Agent.HealthCheckChannel  drop/agent/HealthCheckChannel.cpp; the child Shutdown has the threads
--   Agent.HotmethodChannel  drop/agent/HotmethodChannel.cpp (exec_task = ExecTask)
--   Agent.Worker            its thread (run_worker = Run); the child Shutdown has it on a stopped channel
--   Agent.Main              drop/agent/main.cpp
--   ApiServer.Tasks         apiserver/server/task.go       (CreateTask, RetryTask, DeleteTask)
--   ApiServer.Watcher       the same file                  (watch = startCollectionWatcher)
--   ApiServer.Table         the database that they write, as an interface
--   ApiServer.Agents        apiserver/server/agent.go, heartbeat_watchdog.go (mark_stale_agents_offline =
--                           markStaleAgentsOffline); Agents.Audit has its database
--   ApiServer.Access        apiserver/server/auth.go, user.go, suggestion.go, and what task.go reads for a
--                           user (check_login = CheckLogin, route = a route behind it)
--   Analysis.Collapsed      analysis/hotmethod_common.py   (parse_collapsed, top_n)
--   Analysis.Analyzer       analysis/hotmethod_analyzer.py (analyze = main), and the steps of
--                           analysis/data_parser/collapsed_data_parser.py
--   Analysis.Advisor        analysis/analysis_advisor.py   (run_analysis), analysis/llm_advisor.py
--   Analysis.PollWorker     analysis/poll_worker.py        (poll = one turn of the loop of main)
--   System                  agent and server together; System.Site has an agent and the server in one
--                           state, System.Verdict the watcher on the answers of drop_server,
--                           System.Mirror the posts of drop_server on the apiserver's table of agents,
--                           System.Handover the watcher and the poll worker on one task, System.Request
--                           a request of a user from CreateTask over perf to the row of its task
--   Tests                   the theorems at concrete inputs
--
-- How state and calls are modelled. A handler is a function from the service's state and the request to
-- a Reply: the state after it, the status, the response, and what it logged and posted. Handlers hold a
-- mutex, so each critical section is one step, and a history is a list of steps in the order of the
-- mutexes. A message field that is itself a message reads as its default when unset, as the generated
-- getters do. Clock readings, the answers of the operating system, `getenv`, the JSON library and the
-- outcome of remote calls are arguments; no theorem fixes them, and what one needs of them it says.
--
-- The apiserver's acts (statements, calls, processes) are lists in the order in which the code does them.
-- Of the database it is known that an INSERT or UPDATE changes the row with its key (the `tid` of a task,
-- the address of an agent) and no other, and that a `tid` in use is refused; a row that was deleted softly
-- is no row, and a list of rows has the newest first.
-- HTTP requests are taken after binding, and a remote call enters by its outcome.
--
-- The poll worker sees of the database the rows that are not deleted, in the order of their creation, with
-- the law of its UPDATE; it is one process, and the analyzer's own statements are among those of an attempt.
-- A text of the analysis is the list of its code points; `int` is taken on ASCII digits. What storage,
-- processes, files, `re.search` and the language model answer are arguments.
--
-- Numbers. uint32 and uint64 are native numbers; what can wrap is written with its modulus: the timeouts
-- of a task, the deadlines of its watcher, and the sums and differences of CPU ticks. Process ids and exit codes
-- are integers. A float is its bit pattern; the percentage and the uptime in jiffies, which the program
-- computes in floating point, are an argument.
--
-- Fuel. The polling loop of Perf::Record gets 5 * timeout + 1 rounds. Rounds are 200 ms apart, so the
-- deadline has passed by then; Common.Perf.Timeout proves it from a steady clock.
--
-- Not modelled: gRPC, protobuf and thread creation; the text of `strerror`; the formatting of the time
-- of a log line; the output to std::cerr when the configuration is refused; spurious wake-ups of the
-- condition variable. Of the Go code, the lists of the agents and of their log, which only read, the
-- middleware, the start, and the wrappers of libraries. Of the Python code, the client of the object
-- storage and what the perl scripts compute. The web frontend (JavaScript).
pub mod Base
pub mod Proto
pub mod Common
pub mod Server
pub mod Agent
pub mod ApiServer
pub mod Analysis
pub mod System
mod Tests
