-- ===== src/Tests/System.antt =====
-- The theorems about server and agent together at concrete inputs.
use mathlib.Core.List.{◌++◌, Sublistᴰ}
use mini_drop.Base.{
  String, ◌*◌, arith, List, [], ◌∷◌, ◌≡◌, refl, true, false, Option, none, some, ◌↔◌,
}
use mini_drop.System.Request.{request_of, RunsAsAsked, creation, dispatched}
use mini_drop.System.Request.Decided.{decided, started, request_is_decided}
use mini_drop.Proto.Hotmethod.{TaskResult}
use mini_drop.ApiServer.Watcher.Ending.{launched}
use mini_drop.System.Request.Served.{request_is_run}
use mini_drop.System.Site.Rounds.{turns_execute}
use mini_drop.System.Request.Lost.{failed_call_runs}
use mini_drop.ApiServer.Table.Creation.{is_watched}
use mini_drop.Server.DropServer.{creates, new_server, notifies, serve, step}
use mini_drop.Base.Dict.{get_or, lookup, insert}
use mini_drop.Server.Control.{create_task, fetch_data}
use mini_drop.Base.Int.{pos}
use mini_drop.Agent.HotmethodChannel.{Act, exec_task, finish, fail_with}
use mini_drop.System.Site.{
  Site, Event, serves, beats_answered, beats_unanswered, beats_unsent, pops, after,
}
use mini_drop.System.Site.Tasks.{all_executed, waiting, tasks_conserved, tasks_in_order}
use mini_drop.System.Site.Loss.{unanswered_loses_task}
use mini_drop.Common.Perf.{PerfResult, Action}
use mini_drop.ApiServer.Tasks.{
  runs, sets_status, failed_status, Row, running_status, analysis_pending, answered, call_failed,
  create_task as create_row, dispatch_task, with_defaults,
}
use mini_drop.ApiServer.Table.{row_after_all, execute_all}
use mini_drop.Agent.HotmethodChannel.Reports.{perf_of, notified, IsUploaded}
use mini_drop.System.Handover.{row_waits, acts_at}
use mini_drop.System.Handover.Uploads.{without_analyzer, finish-waits}
use mini_drop.ApiServer.Watcher.{conclude, trigger_analysis}
use mini_drop.System.Verdict.Ending.{conclude-finish}
use mini_drop.Tests.Data.{
  bare, ip, task, create, second, busy_calls, surroundings, cos, os-IsSteady, rows, asked,
}

abbrev site : Site
site = record {
  server = new_server;
  channel = record {
    server_addr = "drop_server:50051";
    host_name = "worker";
    ip_addr = ip;
    uid = "agent-001";
    agent_version = "0.1.0";
    joinable = true;
    running = true;
    task_queue = task "old" ∷ [];
  };
}

abbrev quiet_events : List Event
quiet_events =
    serves (create "a" ip)
    ∷ beats_unsent "no route"
    ∷ beats_answered second
    ∷ pops
    ∷ pops
    ∷ serves (create "b" ip)
    ∷ []

tasks_conserved_example :
    all_executed bare site quiet_events ++ waiting (after bare site quiet_events)
    ≡ waiting site ++ (task "a" ∷ task "b" ∷ [])
tasks_conserved_example =
    tasks_conserved bare site quiet_events (refl, (tt, (tt, (tt, (tt, (refl, tt))))))

abbrev bad_events : List Event
bad_events = serves (create "a" ip) ∷ beats_unanswered second "deadline" ∷ pops ∷ []

tasks_in_order_example :
    Sublistᴰ
      (all_executed bare site bad_events ++ waiting (after bare site bad_events))
      (waiting site ++ (task "a" ∷ []))
tasks_in_order_example = tasks_in_order bare site bad_events

abbrev loaded_site : Site
loaded_site = after bare site (serves (create "a" ip) ∷ [])

unanswered_loses_task_example :
    let all_events = beats_unanswered second "deadline" ∷ pops ∷ [] in
    Sublistᴰ
      (all_executed bare loaded_site all_events ++ waiting (after bare loaded_site all_events))
      ((loaded_site.channel.task_queue ++ []) ++ [])
unfolding after get_or lookup insert step create_task new_server
unanswered_loses_task_example =
    unanswered_loses_task bare loaded_site second "deadline" (task "a") [] (pops ∷ []) refl

abbrev bad_perf : PerfResult
bad_perf = record { success = false; error_msg = "exit code 255" }

-- Perf failed on a task for which an earlier report had announced an upload.
conclude-finish_example :
    let r = (finish surroundings cos (task "t1") bad_perf).0 in
    let s = serve bare new_server (busy_calls ++ (notifies r ∷ [])) in
    conclude
      (trigger_analysis "python3" "a.py" "t1" (pos 0))
      "t1"
      (some (fetch_data s.hotmethod s.control (record { task_id = "t1" })).response)
    ≡ some (runs (sets_status "t1" failed_status "agent failure: perf failed: exit code 255") ∷ [])
unfolding finish fail_with
conclude-finish_example =
    conclude-finish bare busy_calls surroundings cos (task "t1") bad_perf
      (trigger_analysis "python3" "a.py" "t1" (pos 0))

abbrev good_perf : PerfResult
good_perf = record { success = true; error_msg = "" }

-- A task whose data are being collected.
abbrev collected : Row
collected = record {
  tid = "t1";
  name = "";
  task_type = pos 0;
  profiler_type = pos 0;
  target_ip = "10.0.0.1";
  request_params = "";
  status = running_status;
  status_info = "";
  analysis_status = analysis_pending;
  cos_key = "";
  uid = "u";
  user_name = "";
}

finish-waits_example :
    let report = (finish surroundings cos (task "t1") good_perf).0 in
    let s = serve bare new_server (busy_calls ++ (notifies report ∷ [])) in
    let resp = (fetch_data s.hotmethod s.control (record { task_id = "t1" })).response in
    let acts = acts_at "python3" "a.py" "t1" (pos 0) resp in
    (row_waits (row_after_all (without_analyzer "t1" acts) "t1" (some collected)) ≡ true)
    ↔ IsUploaded surroundings cos (task "t1") good_perf
finish-waits_example =
    finish-waits bare busy_calls surroundings cos (task "t1") good_perf "python3" "a.py" (pos 0)
      collected

turns_execute_example :
    let events = beats_answered second ∷ pops ∷ [] in
    (all_executed bare site events ≡ waiting site) × (waiting (after bare site events) ≡ [])
unfolding get_or lookup new_server
turns_execute_example =
    turns_execute bare site (beats_answered second ∷ pops ∷ []) (tt, (tt, tt)) (refl, (refl, tt))
      (omega arith)

abbrev two_turns : List Event
two_turns = beats_answered second ∷ pops ∷ beats_answered (2 * second) ∷ pops ∷ []

-- The user's task comes after the one that the agent has.
request_is_run_example :
    let q = request_of "t1" asked in
    (all_executed bare site (serves (creates q) ∷ two_turns) ≡ waiting site ++ (q.task_desc ∷ []))
    × RunsAsAsked "t1" asked surroundings cos q.task_desc
unfolding create_row dispatch_task with_defaults get_or lookup new_server
request_is_run_example =
    request_is_run bare site "t1" "u1" "ann" "{}"
      (answered (record { success = true; message = "task queued" })) asked (request_of "t1" asked)
      two_turns surroundings cos 42 refl refl (tt, (tt, (tt, (tt, tt))))
      (refl, (refl, (refl, (refl, tt)))) (omega arith) refl os-IsSteady

abbrev empty_rows : String → Option Row
empty_rows tid = none

abbrev later_events : List Event
later_events = beats_answered second ∷ pops ∷ pops ∷ []

failed_call_runs_example :
    let acts = creation "t1" "u1" "ann" "{}" (call_failed "deadline") asked in
    let q = request_of "t1" asked in
    let all_events = serves (creates q) ∷ later_events in
    ((r : Row) × (rows.row (execute_all rows acts empty_rows) "t1" ≡ some r)
      × (r.status ≡ failed_status))
    × (is_watched acts ≡ false)
    × (dispatched acts ≡ q ∷ [])
    × (all_executed bare site all_events ++ waiting (after bare site all_events)
        ≡ waiting site ++ (q.task_desc ∷ []))
failed_call_runs_example =
    failed_call_runs bare site rows empty_rows "t1" "u1" "ann" "{}" "deadline" asked later_events
      refl (tt, (tt, (tt, tt)))

request_is_decided_example :
    let t = (request_of "t1" asked).task_desc in
    (acts : List Act) × (perf : PerfResult × List Action) × (r : TaskResult) × (exec_task
        surroundings cos t
      ≡ some acts)
    × (perf_of surroundings t ≡ some perf)
    × (notified acts ≡ r ∷ [])
    × ((r.error_message ≡ "") ↔ IsUploaded surroundings cos t perf.0)
    × (let s = serve bare new_server (busy_calls ++ (notifies r ∷ [])) in
        let resp = (fetch_data s.hotmethod s.control (record { task_id = "t1" })).response in
        let done = acts_at "python3" "a.py" "t1" (pos 0) resp in
        (row_after_all done "t1" (some collected) ≡ some (decided "t1" collected r))
        × (launched done ≡ started "python3" "a.py" "t1" (pos 0) r))
request_is_decided_example =
    request_is_decided bare busy_calls "t1" asked surroundings cos "python3" "a.py" (pos 0)
      collected os-IsSteady
