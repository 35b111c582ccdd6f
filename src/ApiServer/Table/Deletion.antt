-- ===== src/ApiServer/Table/Deletion.antt =====
-- task.go: a deleted task and its watcher, which goes on.

use mini_drop.Base.{
  ℕ, String, Bool, true, false, ◌==◌, string_eq, eq_iff, if◌then◌else◌, none, some, List, [], ◌∷◌,
  ◌≡◌, refl, ap, ◌∙◌, arith,
}
use mini_drop.Base.Int.{ℤ}
use mini_drop.ApiServer.Tasks.{
  Row, Statement, Act, runs, inserts, sets_status, moves_status, sets_done, sets_analysis, removes,
  dispatches, watches, launches,
}
use mini_drop.ApiServer.Tasks.Existing.{delete_task}
use mini_drop.ApiServer.Watcher.Statements.{HoldsOfUpdates, watch-AllStatements}
use mini_drop.ApiServer.Table.{
  TaskTable, AllStatements, row_after, row_after_all, execute_all, row-execute_all,
}
use mini_drop.ApiServer.Watcher.{Tick, watch}

abbrev is_insert : Statement → Bool
is_insert (inserts new) = true
is_insert _ = false

abbrev IsUpdate : Statement → Type 0
IsUpdate st = is_insert st ≡ false

row_after-none :
    (st : Statement) (tid : String) → is_insert st ≡ false → row_after st tid none ≡ none
row_after-none (inserts new) tid h = cc
row_after-none (sets_status key status info) tid h = ground arith
row_after-none (moves_status key from to info) tid h = ground arith
row_after-none (sets_done key cos_key) tid h = ground arith
row_after-none (sets_analysis key analysis) tid h = ground arith
row_after-none (removes key uid) tid h = ground arith

row_after_all-none :
    (acts : List Act) (tid : String)
    → AllStatements IsUpdate acts
    → row_after_all acts tid none ≡ none
row_after_all-none [] tid h = refl
row_after_all-none (runs st ∷ acts) tid h =
    ap (row_after_all acts tid) (row_after-none st tid h.0) ∙ row_after_all-none acts tid h.1
row_after_all-none (dispatches q ∷ acts) tid h = row_after_all-none acts tid h
row_after_all-none (watches k ty d ∷ acts) tid h = row_after_all-none acts tid h
row_after_all-none (launches args ∷ acts) tid h = row_after_all-none acts tid h

updates-IsUpdate : (tid : String) → HoldsOfUpdates IsUpdate tid
updates-IsUpdate tid = record {
  on_status = λ status info. refl;
  on_move = λ from to info. refl;
  on_done = λ cos_key. refl;
  on_analysis = λ analysis. refl;
}

-- The deletion takes the task of its owner away, and leaves that of any other user as it is.
delete_task-row :
    (db : TaskTable) (t : db.Table) (tid uid : String) (affected : ℕ) (r : Row)
    → db.row t tid ≡ some r
    → db.row (execute_all db (delete_task tid uid (some affected)).0 t) tid
      ≡ (if r.uid == uid then none else some r)
unfolding delete_task
delete_task-row db t tid uid affected r known =
    let acts = (delete_task tid uid (some affected)).0 in
    let same : (tid == tid) ≡ true = (eq_iff tid tid).1 refl in
    row-execute_all db acts t tid ∙ ap (row_after_all acts tid) known ∙ rw same refl

-- A user deletes a task that is theirs, and the database reports no error: whatever the task's watcher
-- does afterwards, the task stays deleted.
delete_task-watch :
    (db : TaskTable) (t : db.Table) (tid uid : String) (affected : ℕ) (r : Row)
    (python script : String) (task_type : ℤ) (duration : ℕ) (ticks : List Tick)
    → db.row t tid ≡ some r
    → r.uid ≡ uid
    → let deleted = execute_all db (delete_task tid uid (some affected)).0 t in
      db.row (execute_all db (watch python script tid task_type duration ticks).0 deleted) tid
      ≡ none
delete_task-watch db t tid uid affected r python script task_type duration ticks known owner =
    let deleted = execute_all db (delete_task tid uid (some affected)).0 t in
    let acts = (watch python script tid task_type duration ticks).0 in
    let updates =
      watch-AllStatements IsUpdate tid (updates-IsUpdate tid) python script task_type duration
        ticks in
    row-execute_all db acts deleted tid
    ∙ ap (row_after_all acts tid) (
        delete_task-row db t tid uid affected r known
        ∙ ap (λ b. if b then none else some r) ((eq_iff r.uid uid).1 owner))
    ∙ row_after_all-none acts tid updates
