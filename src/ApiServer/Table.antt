-- ===== src/ApiServer/Table.antt =====
-- The table `hotmethod_task` as apiserver/server/task.go uses it: the database is an interface with the
-- one law that a statement changes the rows that it names, as SQL says of INSERT and UPDATE.
pub mod Creation
pub mod Deletion
use mathlib.Core.Option
use mathlib.Core.List.{◌++◌}
use mini_drop.Base.{
  ℕ, String, Bool, ◌==◌, string_eq, eqb, if◌then◌else◌, Option, none, some, List, [], ◌∷◌, ◌≡◌,
  refl, ap, ◌∙◌,
}
use mini_drop.ApiServer.Tasks.{
  Row, Statement, inserts, sets_status, moves_status, sets_done, sets_analysis, removes, Act, runs,
  dispatches, watches, launches, done_status, analysis_pending,
}

-- What an update does to the row of `tid`. A row that is deleted softly counts as none: no later query of
-- the code sees it.
abbrev pub changed : Statement → Row → Row
changed (inserts new) r = r
changed (sets_status key status info) r = record r { status = status; status_info = info }
changed (moves_status key from to info) r =
    if eqb r.status from then record r { status = to; status_info = info } else r
changed (sets_done key cos_key) r = record r {
  status = done_status;
  status_info = "collection complete";
  cos_key = cos_key;
  analysis_status = analysis_pending;
}
changed (sets_analysis key analysis) r = record r { analysis_status = analysis }
changed (removes key uid) r = r

abbrev pub names : Statement → String
names (inserts new) = new.tid
names (sets_status key status info) = key
names (moves_status key from to info) = key
names (sets_done key cos_key) = key
names (sets_analysis key analysis) = key
names (removes key uid) = key

-- What a statement makes of the row that it names.
abbrev pub found : Statement → Option Row → Option Row
found (inserts new) o = some new
found (removes key uid) none = none
found (removes key uid) (some r) = if r.uid == uid then none else some r
found st o = Option.map (changed st) o

abbrev pub row_after : Statement → String → Option Row → Option Row
row_after st tid o = if names st == tid then found st o else o

-- What holds of all statements among the acts of the code.
abbrev pub AllStatements : (Statement → Type 0) → List Act → Type 0
AllStatements P [] = Unit
AllStatements P (runs st ∷ acts) = P st × AllStatements P acts
AllStatements P (_ ∷ acts) = AllStatements P acts

-- Every statement is carried out; what else the table holds is open.
pub record TaskTable : Type 1 where
  pub Table : Type 0
  pub row : Table → String → Option Row
  pub execute : Statement → Table → Table
  pub row-execute :
      (st : Statement) (t : Table) (tid : String)
      → row (execute st t) tid ≡ row_after st tid (row t tid)

-- The statements among the acts of the code, in their order.
abbrev pub row_after_all : List Act → String → Option Row → Option Row
row_after_all [] tid o = o
row_after_all (runs st ∷ acts) tid o = row_after_all acts tid (row_after st tid o)
row_after_all (_ ∷ acts) tid o = row_after_all acts tid o

pub row_after_all-append :
    (acts more : List Act) (tid : String) (o : Option Row)
    → row_after_all (acts ++ more) tid o ≡ row_after_all more tid (row_after_all acts tid o)
row_after_all-append [] more tid o = refl
row_after_all-append (runs st ∷ acts) more tid o =
    row_after_all-append acts more tid (row_after st tid o)
row_after_all-append (dispatches q ∷ acts) more tid o = row_after_all-append acts more tid o
row_after_all-append (watches k ty d ∷ acts) more tid o = row_after_all-append acts more tid o
row_after_all-append (launches args ∷ acts) more tid o = row_after_all-append acts more tid o

module _ (db : TaskTable) where
  open db use {Table, row, execute, row-execute}

  unfoldable pub execute_all : List Act → Table → Table
  execute_all [] t = t
  execute_all (runs st ∷ acts) t = execute_all acts (execute st t)
  execute_all (dispatches q ∷ acts) t = execute_all acts t
  execute_all (watches tid task_type duration ∷ acts) t = execute_all acts t
  execute_all (launches args ∷ acts) t = execute_all acts t

  pub row-execute_all :
      (acts : List Act) (t : Table) (tid : String)
      → row (execute_all acts t) tid ≡ row_after_all acts tid (row t tid)
  unfolding execute_all
  row-execute_all [] t tid = refl
  row-execute_all (runs st ∷ acts) t tid =
      row-execute_all acts (execute st t) tid ∙ ap (row_after_all acts tid) (row-execute st t tid)
  row-execute_all (dispatches q ∷ acts) t tid = row-execute_all acts t tid
  row-execute_all (watches key task_type duration ∷ acts) t tid = row-execute_all acts t tid
  row-execute_all (launches args ∷ acts) t tid = row-execute_all acts t tid
