-- ===== src/ApiServer/Access/Routes.antt =====
-- apiserver/server/server.go, the routes of the tasks: each handler behind CheckLogin, with what it reads
-- from the table. Rows that are deleted softly are in none of the answers of the database; the others stand
-- newest first.
use mini_drop.Base.{
  String, Bool, true, not, ◌&&◌, ◌==◌, string_eq, if◌then◌else◌, Option, none, some, List, [], ◌∷◌,
  length, take, filter,
}
use mini_drop.ApiServer.Tasks.{Row, Act, Answer, CreateTaskReq, Dispatch, server_error, create_task}
use mini_drop.ApiServer.Tasks.Existing.{retry_task, delete_task}
use mini_drop.ApiServer.Access.{Http, Identity, check_login}

-- Ids of new tasks, what the database does beyond its rows, and the outcome of a call are given.
pub data Request : Type 0 where
  creates : String → String → Bool → Dispatch → String → Option CreateTaskReq → Request
  retries : String → String → Bool → Request
  deletes : String → Bool → Request
  lists : Bool → Request
  gets : String → Bool → Request

pub data Reply : Type 0 where
  not_logged_in : Reply
  answered : Answer → Reply
  -- `total` is the number of these.
  tasks : List Row → Reply
  one_task : Row → Reply

-- `WHERE uid = ?`.
abbrev pub own : String → List Row → List Row
own uid rows = filter (λ r. r.uid == uid) rows

abbrev pub with_tid : String → List Row → List Row
with_tid tid rows = filter (λ r. r.tid == tid) rows

abbrev pub first : List Row → Option Row
first [] = none
first (r ∷ rows) = some r

-- The unique index on `tid` refuses one that is in use.
abbrev pub is_free : String → List Row → Bool
is_free tid [] = true
is_free tid (r ∷ rows) = not (r.tid == tid) && is_free tid rows

-- `GetTask`.
unfoldable pub get_task : Bool → Option Row → Reply
get_task reached none = answered (record { http = 404; code = 4040001; text = "task not found" })
get_task reached (some r) =
    if reached
    then one_task r
    else answered (record { http = 404; code = 4040001; text = "task not found" })

-- `ListTasks`: always the first page.
unfoldable pub list_tasks : Bool → List Row → Reply
list_tasks reached rows =
    if reached then tasks (take 20 rows) else answered (server_error 500 "db error")

abbrev pub replied : List Act × Answer → List Act × Reply
replied (acts, answer) = (acts, answered answer)

unfoldable pub handle : Identity → Request → List Row → List Act × Reply
handle who (creates tid params accepted dispatch reason given) rows = replied (
    create_task tid who.uid who.user_name params (accepted && is_free tid rows) dispatch reason
      given)
handle who (retries tid new_tid accepted) rows = replied (
    retry_task tid new_tid who.uid (accepted && is_free new_tid rows)
      (first (with_tid tid (own who.uid rows))))
handle who (deletes tid reached) rows = replied (
    delete_task tid who.uid
      (if reached then some (length (with_tid tid (own who.uid rows))) else none))
handle who (lists reached) rows = ([], list_tasks reached (own who.uid rows))
handle who (gets tid reached) rows =
    ([], get_task reached (first (with_tid tid (own who.uid rows))))

-- A handler behind the middleware.
abbrev pub behind : Option Identity → Request → List Row → List Act × Reply
behind none request rows = ([], not_logged_in)
behind (some who) request rows = handle who request rows

unfoldable pub route : Http → Request → List Row → List Act × Reply
route http request rows = behind (check_login http) request rows
