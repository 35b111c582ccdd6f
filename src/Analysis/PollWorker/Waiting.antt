-- ===== src/Analysis/PollWorker/Waiting.antt =====
-- poll_worker.py: a round of the worker on the queue of the tasks that wait for their analysis.
use mathlib.Core.List.{◌++◌}
use mini_drop.Base.{
  ℕ, zero, suc, String, Bool, true, false, ◌==◌, string_eq, eq_iff, if◌then◌else◌, List, [], ◌∷◌,
  take, drop, filter, ◌≡◌, refl, sym, ap, ◌∙◌, subst, arith, Bool-cases, inl, inr,
}
use mini_drop.ApiServer.Tasks.{Row}
use mini_drop.Analysis.PollWorker.{is_waiting, Attempt, statuses}
use mini_drop.Analysis.PollWorker.Rows.{
  tids_of, waiting_tids, contains, Distinct, still_waits, set_rows, marked, mark_rows,
  mark_rows-nil, mark_rows-cons, mark_rows-not_in, set_rows-tid, waiting_tids-yes, waiting_tids-no,
  waiting_tids-set_rows, contains-waiting_tids, contains-take,
}

module _ (attempt : String → Attempt) where
  -- Whether a task that waits does so after it has been processed.
  abbrev pub keeps : String → Bool
  keeps tid = still_waits true (statuses tid (attempt tid))

  abbrev pub process_rows : List String → List Row → List Row
  process_rows [] rs = rs
  process_rows (x ∷ xs) rs = process_rows xs (mark_rows x (statuses x (attempt x)) rs)

  abbrev processed : List String → Row → Row
  processed [] r = r
  processed (x ∷ xs) r = processed xs (marked x (statuses x (attempt x)) r)

  process_rows-nil : (xs : List String) → process_rows xs [] ≡ []
  process_rows-nil [] = refl
  process_rows-nil (x ∷ xs) =
      ap (process_rows xs) (mark_rows-nil x (statuses x (attempt x))) ∙ process_rows-nil xs

  process_rows-cons :
      (xs : List String) (r : Row) (rs : List Row)
      → process_rows xs (r ∷ rs) ≡ processed xs r ∷ process_rows xs rs
  process_rows-cons [] r rs = refl
  process_rows-cons (x ∷ xs) r rs =
      let ss = statuses x (attempt x) in
      ap (process_rows xs) (mark_rows-cons x ss r rs)
      ∙ process_rows-cons xs (marked x ss r) (mark_rows x ss rs)

  processed-not_in : (xs : List String) (r : Row) → contains xs r.tid ≡ false → processed xs r ≡ r
  processed-not_in [] r h = refl
  processed-not_in (x ∷ xs) r h =
      let other : (r.tid == x) ≡ false = ground (arith, eq_iff r.tid x, eq_iff x r.tid) in
      rw other (processed-not_in xs r (ground arith))

  -- A row that waits, in front of the others, and is the first to be processed.
  processed-head :
      (xs : List String) (r : Row)
      → contains xs r.tid ≡ false
      → processed (r.tid ∷ xs) r ≡ set_rows (statuses r.tid (attempt r.tid)) r
  processed-head xs r h =
      let ss = statuses r.tid (attempt r.tid) in
      let same : marked r.tid ss r ≡ set_rows ss r =
        ap (λ b. if b then set_rows ss r else r) ((eq_iff r.tid r.tid).1 refl) in
      ap (processed xs) same
      ∙ processed-not_in xs (set_rows ss r)
          (subst (λ t. contains xs t ≡ false) (sym (set_rows-tid ss r)) h)

  unfoldable pub Polled : ℕ → List String → List Row → Type 0
  Polled n ws rs =
      waiting_tids (process_rows (take n ws) rs) ≡ filter keeps (take n ws) ++ drop n ws

  Polled-skip :
      (n : ℕ) (r : Row) (rs : List Row)
      → is_waiting r ≡ false
      → contains (take n (waiting_tids rs)) r.tid ≡ false
      → Polled n (waiting_tids rs) rs
      → Polled n (waiting_tids rs) (r ∷ rs)
  unfolding Polled
  Polled-skip n r rs w new h =
      let xs = take n (waiting_tids rs) in
      ap waiting_tids
        (process_rows-cons xs r rs ∙ ap (λ q. q ∷ process_rows xs rs) (processed-not_in xs r new))
      ∙ waiting_tids-no r (process_rows xs rs) w
      ∙ h

  Polled-head :
      (n : ℕ) (r : Row) (rs : List Row)
      → is_waiting r ≡ true
      → contains (tids_of rs) r.tid ≡ false
      → contains (take n (waiting_tids rs)) r.tid ≡ false
      → Polled n (waiting_tids rs) rs
      → Polled (suc n) (r.tid ∷ waiting_tids rs) (r ∷ rs)
  unfolding Polled
  Polled-head n r rs w only new h =
      let xs = take n (waiting_tids rs) in
      let ss = statuses r.tid (attempt r.tid) in
      let others = process_rows xs rs in
      let row_now : process_rows (r.tid ∷ xs) (r ∷ rs) ≡ set_rows ss r ∷ others =
        process_rows-cons (r.tid ∷ xs) r rs
        ∙ ap (λ q. q ∷ process_rows (r.tid ∷ xs) rs) (processed-head xs r new)
        ∙ ap (λ q. set_rows ss r ∷ process_rows xs q) (mark_rows-not_in r.tid ss rs only) in
      ap waiting_tids row_now
      ∙ waiting_tids-set_rows ss r others w
      ∙ elim (Bool-cases (keeps r.tid)) [ inl k ↦ rw k (ap (◌∷◌ r.tid) h) | inr k ↦ rw k h ]

  pub waiting_tids-process_rows :
      (n : ℕ) (rs : List Row) → Distinct rs → Polled n (waiting_tids rs) rs
  waiting_tids-process_rows zero rs h = unfold Polled in refl
  waiting_tids-process_rows (suc n) [] h = unfold Polled in ap waiting_tids (process_rows-nil [])
  waiting_tids-process_rows (suc n) (r ∷ rs) h =
      let later = contains-waiting_tids r.tid rs h.0 in
      elim (Bool-cases (is_waiting r)) [
        | inl w ↦
            subst (λ ws. Polled (suc n) ws (r ∷ rs)) (sym (waiting_tids-yes r rs w))
              (Polled-head n r rs w h.0 (contains-take n r.tid (waiting_tids rs) later)
                (waiting_tids-process_rows n rs h.1))
        | inr w ↦
            subst (λ ws. Polled (suc n) ws (r ∷ rs)) (sym (waiting_tids-no r rs w))
              (Polled-skip (suc n) r rs w (contains-take (suc n) r.tid (waiting_tids rs) later)
                (waiting_tids-process_rows (suc n) rs h.1))
      ]
