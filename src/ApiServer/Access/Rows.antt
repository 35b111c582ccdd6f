-- ===== src/ApiServer/Access/Rows.antt =====
-- The rows of `hotmethod_task`: what the statements of apiserver/server/task.go leave of the rows of one user.
use mini_drop.Base.{
  String, true, not, ◌&&◌, ◌==◌, string_eq, eq_iff, if◌then◌else◌, List, [], ◌∷◌, map, filter, ◌≡◌,
  ◌≢◌, refl, sym, ap, ◌∙◌, subst, arith, Bool-cases, inl, inr,
}
use mini_drop.ApiServer.Tasks.{
  Row, Statement, inserts, sets_status, moves_status, sets_done, sets_analysis, removes, Act, runs,
  dispatches, watches, launches,
}
use mini_drop.ApiServer.Table.{AllStatements, changed, names}
use mini_drop.ApiServer.Access.Routes.{own, is_free}

-- An UPDATE.
abbrev pub update : Statement → List Row → List Row
update st rows = map (λ r. if r.tid == names st then changed st r else r) rows

abbrev pub rows_after : Statement → List Row → List Row
rows_after (inserts new) rows = new ∷ rows
rows_after (removes tid uid) rows = filter (λ r. not (r.tid == tid && r.uid == uid)) rows
rows_after st rows = update st rows

-- The rows that are not deleted, newest first: a new row comes to the front, and the other statements change
-- the rows that they name and keep the order.
pub record TaskList : Type 1 where
  pub Table : Type 0
  pub rows : Table → List Row
  pub execute : Statement → Table → Table
  pub rows-execute : (st : Statement) (t : Table) → rows (execute st t) ≡ rows_after st (rows t)

-- A statement that touches none of the rows of a user.
abbrev pub Spares : String → List Row → Statement → Type 0
Spares uid mine (inserts new) = new.uid ≢ uid
Spares uid mine (removes tid owner) = owner ≢ uid
Spares uid mine st = is_free (names st) mine ≡ true

changed-uid : (st : Statement) (r : Row) → (changed st r).uid ≡ r.uid
changed-uid (inserts new) r = refl
changed-uid (sets_status key status info) r = refl
changed-uid (moves_status key from to info) r = ground arith
changed-uid (sets_done key cos_key) r = refl
changed-uid (sets_analysis key analysis) r = refl
changed-uid (removes key uid) r = refl

own-update :
    (uid : String) (st : Statement) (rows : List Row)
    → is_free (names st) (own uid rows) ≡ true
    → own uid (update st rows) ≡ own uid rows
own-update uid st [] h = refl
own-update uid st (r ∷ rows) h = elim (Bool-cases (r.uid == uid)) [
  | inl mine ↦ ground (arith, own-update uid st rows)
  | inr other ↦ ground (arith, own-update uid st rows, changed-uid st r)
]

own-removes :
    (uid tid owner : String) (rows : List Row)
    → owner ≢ uid
    → own uid (rows_after (removes tid owner) rows) ≡ own uid rows
own-removes uid tid owner [] h = refl
own-removes uid tid owner (r ∷ rows) h =
    ground (arith, own-removes uid tid owner rows, eq_iff r.uid uid, eq_iff r.uid owner)

own-rows_after :
    (uid : String) (st : Statement) (rows : List Row)
    → Spares uid (own uid rows) st
    → own uid (rows_after st rows) ≡ own uid rows
own-rows_after uid (inserts new) rows h = ground (arith, eq_iff new.uid uid)
own-rows_after uid (sets_status key status info) rows h =
    own-update uid (sets_status key status info) rows h
own-rows_after uid (moves_status key from to info) rows h =
    own-update uid (moves_status key from to info) rows h
own-rows_after uid (sets_done key cos_key) rows h = own-update uid (sets_done key cos_key) rows h
own-rows_after uid (sets_analysis key analysis) rows h =
    own-update uid (sets_analysis key analysis) rows h
own-rows_after uid (removes key owner) rows h = own-removes uid key owner rows h

module _ (db : TaskList) where
  open db use {Table, rows, execute, rows-execute}

  abbrev pub execute_acts : List Act → Table → Table
  execute_acts [] t = t
  execute_acts (runs st ∷ acts) t = execute_acts acts (execute st t)
  execute_acts (_ ∷ acts) t = execute_acts acts t

  pub own-execute_acts :
      (uid : String) (mine : List Row) (acts : List Act) (t : Table)
      → own uid (rows t) ≡ mine
      → AllStatements (Spares uid mine) acts
      → own uid (rows (execute_acts acts t)) ≡ mine
  own-execute_acts uid mine [] t e h = e
  own-execute_acts uid mine (runs st ∷ acts) t e h =
      own-execute_acts uid mine acts (execute st t)
        (ap (own uid) (rows-execute st t)
          ∙ own-rows_after uid st (rows t) (subst (λ m. Spares uid m st) (sym e) h.0)
          ∙ e)
        h.1
  own-execute_acts uid mine (dispatches q ∷ acts) t e h = own-execute_acts uid mine acts t e h
  own-execute_acts uid mine (watches k ty d ∷ acts) t e h = own-execute_acts uid mine acts t e h
  own-execute_acts uid mine (launches args ∷ acts) t e h = own-execute_acts uid mine acts t e h
