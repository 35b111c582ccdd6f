-- ===== src/ApiServer/Access/Isolation.antt =====
-- apiserver/server: what the calls of other users, and the watchers of their tasks, change for a user.
use mini_drop.Base.{
  ℕ, String, Bool, true, false, string_eq, if◌then◌else◌, Option, none, some, List, [], ◌∷◌, length,
  subst, All, ◌≡◌, ◌≢◌, refl, sym, ap,
}
use mini_drop.Base.Int.{ℤ}
use mini_drop.ApiServer.Tasks.{Row, Act}
use mini_drop.ApiServer.Table.{AllStatements}
use mini_drop.ApiServer.Watcher.{Tick, watch}
use mini_drop.ApiServer.Watcher.Statements.{watch-AllStatements}
use mini_drop.ApiServer.Tasks.Existing.{delete_task}
use mini_drop.ApiServer.Access.{Http, Identity, check_login}
use mini_drop.ApiServer.Access.Routes.{
  Request, creates, retries, deletes, lists, gets, own, is_free, handle, behind, route, first,
  replied, list_tasks, get_task, with_tid,
}
use mini_drop.ApiServer.Access.Foreign.{handle-AllStatements, updates-Spares}
use mini_drop.ApiServer.Access.Rows.{TaskList, Spares, execute_acts, own-execute_acts}

-- A request to the apiserver, or the watcher of a task, with its ticks.
pub data Event : Type 0 where
  requests : Http → Request → Event
  watched : String → String → String → ℤ → ℕ → List Tick → Event

-- A request of somebody else, or of nobody.
abbrev pub IsOther : String → Option Identity → Type 0
IsOther uid none = Unit
IsOther uid (some who) = who.uid ≢ uid

-- What an event does that is no request of the user and no watcher of one of the user's tasks.
abbrev pub IsForeign : String → List Row → Event → Type 0
IsForeign uid mine (requests http request) = IsOther uid (check_login http)
IsForeign uid mine (watched python script tid task_type duration ticks) = is_free tid mine ≡ true

abbrev pub event_acts : Event → List Row → List Act
event_acts (requests http request) rows = (route http request rows).0
event_acts (watched python script tid task_type duration ticks) rows =
    (watch python script tid task_type duration ticks).0

behind-AllStatements :
    (uid : String) (who : Option Identity) (request : Request) (rows : List Row)
    → IsOther uid who
    → AllStatements (Spares uid (own uid rows)) (behind who request rows).0
behind-AllStatements uid none request rows o = tt
behind-AllStatements uid (some who) request rows o = handle-AllStatements uid who request rows o

event_acts-AllStatements :
    (uid : String) (event : Event) (rows : List Row)
    → IsForeign uid (own uid rows) event
    → AllStatements (Spares uid (own uid rows)) (event_acts event rows)
unfolding route
event_acts-AllStatements uid (requests http request) rows o =
    behind-AllStatements uid (check_login http) request rows o
event_acts-AllStatements uid (watched python script tid task_type duration ticks) rows o =
    watch-AllStatements (Spares uid (own uid rows)) tid (updates-Spares uid (own uid rows) tid o)
      python script task_type duration ticks

-- The requests that only the user's own rows answer.
abbrev pub is_own : Request → Bool
is_own (lists reached) = true
is_own (gets tid reached) = true
is_own (deletes tid reached) = true
is_own _ = false

reply-own :
    (who : Identity) (request : Request) (rows more : List Row)
    → is_own request ≡ true
    → own who.uid rows ≡ own who.uid more
    → (handle who request rows).1 ≡ (handle who request more).1
unfolding handle
reply-own who (creates tid params accepted dispatch reason given) rows more h e = cc
reply-own who (retries tid new_tid accepted) rows more h e = cc
reply-own who (deletes tid reached) rows more h e =
    ap
      (λ mine.
        (replied (
          delete_task tid who.uid (if reached then some (length (with_tid tid mine)) else none))).1)
      e
reply-own who (lists reached) rows more h e = ap (list_tasks reached) e
reply-own who (gets tid reached) rows more h e =
    ap (λ mine. get_task reached (first (with_tid tid mine))) e

module _ (db : TaskList) where
  open db use {Table, rows}

  abbrev pub after : List Event → Table → Table
  after [] t = t
  after (event ∷ events) t = after events (execute_acts db (event_acts event (rows t)) t)

  own-after :
      (uid : String) (mine : List Row) (events : List Event) (t : Table)
      → own uid (rows t) ≡ mine
      → All (IsForeign uid mine) events
      → own uid (rows (after events t)) ≡ mine
  own-after uid mine [] t e h = e
  own-after uid mine (event ∷ events) t e h =
      let spared =
        subst (λ m. AllStatements (Spares uid m) (event_acts event (rows t))) e
          (event_acts-AllStatements uid event (rows t)
            (subst (λ m. IsForeign uid m event) (sym e) h.0)) in
      own-after uid mine events (execute_acts db (event_acts event (rows t)) t)
        (own-execute_acts db uid mine (event_acts event (rows t)) t e spared) h.1

  -- Whatever other users ask for, with or without a login, whichever tasks they name, and whatever the
  -- watchers of their tasks do: the tasks of a user stay as they are, and the user's next ListTasks, GetTask
  -- or DeleteTask is answered as if nothing had happened.
  pub route-foreign :
      (http : Http) (who : Identity) (request : Request) (events : List Event) (t : Table)
      → check_login http ≡ some who
      → is_own request ≡ true
      → All (IsForeign who.uid (own who.uid (rows t))) events
      → (own who.uid (rows (after events t)) ≡ own who.uid (rows t))
        × ((route http request (rows (after events t))).1 ≡ (route http request (rows t)).1)
  unfolding route
  route-foreign http who request events t login reads foreign =
      let same = own-after who.uid (own who.uid (rows t)) events t refl foreign in
      (same, rw login (reply-own who request (rows (after events t)) (rows t) reads same))
