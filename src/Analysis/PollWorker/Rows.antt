-- ===== src/Analysis/PollWorker/Rows.antt =====
-- poll_worker.py: the rows of tasks, those that wait, and what statements on one id do to them.
use mini_drop.Base.{
  ℕ, zero, suc, String, Bool, true, false, ◌||◌, eqb, ◌==◌, string_eq, if◌then◌else◌, List, [], ◌∷◌,
  map, take, filter, ◌≡◌, refl, ap, ◌∙◌, arith, Bool-cases, inl, inr,
}
use mini_drop.ApiServer.Tasks.{Row, done_status}
use mini_drop.Analysis.PollWorker.{waits, is_waiting, with_analysis, with_analysis_of}

abbrev pub tids_of : List Row → List String
tids_of rows = map (λ r. r.tid) rows

abbrev pub waiting_tids : List Row → List String
waiting_tids rows = tids_of (filter is_waiting rows)

abbrev pub contains : List String → String → Bool
contains [] x = false
contains (y ∷ ys) x = y == x || contains ys x

-- The index on `tid` is unique.
abbrev pub Distinct : List Row → Type 0
Distinct [] = Unit
Distinct (r ∷ rs) = (contains (tids_of rs) r.tid ≡ false) × Distinct rs

abbrev pub DistinctTids : List String → Type 0
DistinctTids [] = Unit
DistinctTids (x ∷ xs) = (contains xs x ≡ false) × DistinctTids xs

-- Whether a task that waits (or not) does so when its `analysis_status` has been given these values.
abbrev pub still_waits : Bool → List ℕ → Bool
still_waits b [] = b
still_waits b (s ∷ ss) = still_waits (waits s) ss

abbrev pub set_rows : List ℕ → Row → Row
set_rows [] r = r
set_rows (s ∷ ss) r = set_rows ss (with_analysis s r)

abbrev pub marked : String → List ℕ → Row → Row
marked tid ss r = if r.tid == tid then set_rows ss r else r

abbrev pub mark_rows : String → List ℕ → List Row → List Row
mark_rows tid [] rs = rs
mark_rows tid (s ∷ ss) rs = mark_rows tid ss (map (with_analysis_of tid s) rs)

pub mark_rows-nil : (tid : String) (ss : List ℕ) → mark_rows tid ss [] ≡ []
mark_rows-nil tid [] = refl
mark_rows-nil tid (s ∷ ss) = mark_rows-nil tid ss

pub marked-with_analysis_of :
    (tid : String) (s : ℕ) (ss : List ℕ) (r : Row)
    → marked tid ss (with_analysis_of tid s r) ≡ marked tid (s ∷ ss) r
marked-with_analysis_of tid s ss r = elim (Bool-cases (r.tid == tid)) [
  | inl same ↦ rw (same, same) refl
  | inr other ↦ rw (other, other) refl
]

pub mark_rows-cons :
    (tid : String) (ss : List ℕ) (r : Row) (rs : List Row)
    → mark_rows tid ss (r ∷ rs) ≡ marked tid ss r ∷ mark_rows tid ss rs
mark_rows-cons tid [] r rs = ground arith
mark_rows-cons tid (s ∷ ss) r rs =
    mark_rows-cons tid ss (with_analysis_of tid s r) (map (with_analysis_of tid s) rs)
    ∙ ap (λ x. x ∷ mark_rows tid (s ∷ ss) rs) (marked-with_analysis_of tid s ss r)

pub mark_rows-not_in :
    (tid : String) (ss : List ℕ) (rs : List Row)
    → contains (tids_of rs) tid ≡ false
    → mark_rows tid ss rs ≡ rs
mark_rows-not_in tid ss [] h = mark_rows-nil tid ss
mark_rows-not_in tid ss (r ∷ rs) h =
    mark_rows-cons tid ss r rs ∙ ground (arith, mark_rows-not_in tid ss rs)

pub set_rows-is_waiting :
    (ss : List ℕ) (r : Row)
    → eqb r.status done_status ≡ true
    → is_waiting (set_rows ss r) ≡ still_waits (waits r.analysis_status) ss
set_rows-is_waiting [] r h = rw h refl
set_rows-is_waiting (s ∷ ss) r h = set_rows-is_waiting ss (with_analysis s r) h

pub set_rows-tid : (ss : List ℕ) (r : Row) → (set_rows ss r).tid ≡ r.tid
set_rows-tid [] r = refl
set_rows-tid (s ∷ ss) r = set_rows-tid ss (with_analysis s r)

pub waiting_tids-yes :
    (r : Row) (rs : List Row)
    → is_waiting r ≡ true
    → waiting_tids (r ∷ rs) ≡ r.tid ∷ waiting_tids rs
waiting_tids-yes r rs w = rw w refl

pub waiting_tids-no :
    (r : Row) (rs : List Row) → is_waiting r ≡ false → waiting_tids (r ∷ rs) ≡ waiting_tids rs
waiting_tids-no r rs w = rw w refl

pub waiting_tids-set_rows :
    (ss : List ℕ) (r : Row) (rs : List Row)
    → is_waiting r ≡ true
    → waiting_tids (set_rows ss r ∷ rs)
      ≡ (if still_waits true ss then r.tid ∷ waiting_tids rs else waiting_tids rs)
waiting_tids-set_rows ss r rs w =
    let done : eqb r.status done_status ≡ true = ground arith in
    let was : waits r.analysis_status ≡ true = ground arith in
    let now : is_waiting (set_rows ss r) ≡ still_waits true ss =
      set_rows-is_waiting ss r done ∙ ap (λ b. still_waits b ss) was in
    ap (λ b. tids_of (if b then set_rows ss r ∷ filter is_waiting rs else filter is_waiting rs)) now
    ∙ elim (Bool-cases (still_waits true ss)) [
      | inl k ↦ rw k (ap (λ t. t ∷ waiting_tids rs) (set_rows-tid ss r))
      | inr k ↦ rw k refl
    ]

pub contains-waiting_tids :
    (x : String) (rs : List Row)
    → contains (tids_of rs) x ≡ false
    → contains (waiting_tids rs) x ≡ false
contains-waiting_tids x [] h = refl
contains-waiting_tids x (r ∷ rs) h = elim (Bool-cases (is_waiting r)) [
  | inl w ↦ rw w (ground (arith, contains-waiting_tids x rs))
  | inr w ↦ rw w (ground (arith, contains-waiting_tids x rs))
]

pub contains-take :
    (n : ℕ) (x : String) (xs : List String) → contains xs x ≡ false → contains (take n xs) x ≡ false
contains-take zero x xs h = refl
contains-take (suc n) x [] h = refl
contains-take (suc n) x (y ∷ ys) h = ground (arith, contains-take n x ys)
