-- ===== src/Tests/Access.antt =====
-- The theorem about the users of the apiserver at concrete inputs.
use mini_drop.Base.{
  String, ◌==◌, string_eq, if◌then◌else◌, true, none, some, List, [], ◌∷◌, ◌≡◌, ◌≢◌, eq_iff, refl,
}
use mini_drop.Base.Int.{pos}
use mini_drop.ApiServer.Tasks.{Row, new_row, no_client}
use mini_drop.Tests.Data.{asked}
use mini_drop.ApiServer.Access.{Http, Identity, check_login}
use mini_drop.ApiServer.Access.Routes.{creates, retries, deletes, lists, own, route}
use mini_drop.ApiServer.Access.Rows.{TaskList, rows_after}
use mini_drop.ApiServer.Access.Isolation.{Event, requests, watched, after, route-foreign}

-- A table that is its rows.
abbrev listed : TaskList
listed = record {
  Table = List Row;
  rows = λ t. t;
  execute = λ st t. rows_after st t;
  rows-execute = λ st t. refl;
}

abbrev two_rows : List Row
two_rows = new_row "t2" "u2" "bob" "{}" asked ∷ new_row "t1" "u1" "ann" "{}" asked ∷ []

-- A user's id in the header.
abbrev http_of : String → Http
http_of uid = record {
  header = λ key. if key == "Drop_user_uid" then uid else "";
  cookie = λ key. none;
}

-- Somebody else deletes and retries a task that is not theirs, and creates one of their own.
abbrev events : List Event
events =
    requests (http_of "u2") (deletes "t1" true)
    ∷ requests (http_of "u2") (retries "t1" "t3" true)
    ∷ requests (http_of "u2") (creates "t4" "{}" true no_client "" (some asked))
    ∷ requests (http_of "") (deletes "t1" true)
    ∷ watched "python3" "a.py" "t2" (pos 0) 10
        (record { now = 131000000000; now_collect = 0; fetched = none } ∷ [])
    ∷ []

abbrev ann : Identity
ann = record { uid = "u1"; user_name = "" }

bob_is_other : ◌≢◌ {A = String} "u2" "u1"
bob_is_other e = absurd (cc ((eq_iff "u2" "u1").1 e))

route-foreign_example :
    (own "u1" (after listed events two_rows) ≡ own "u1" two_rows)
    × ((route (http_of "u1") (lists true) (after listed events two_rows)).1
        ≡ (route (http_of "u1") (lists true) two_rows).1)
unfolding check_login new_row
route-foreign_example =
    route-foreign listed (http_of "u1") ann (lists true) events two_rows refl refl
      (bob_is_other, (bob_is_other, (bob_is_other, (tt, (refl, tt)))))
