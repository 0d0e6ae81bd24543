-- ===== src/Tasks/Stats.antt =====
-- `Task::stats` of components/tasks-comp/tasks-comp.cpp: a row for each task with its share of the
-- run time. A row is kept as its parts, not as the text that `sprintf` makes of them.
use esp32sx_c_plus_wrappers.Base.{
  ℕ, suc, ◌+◌, ◌*◌, ◌/◌, ◌≤◌, ◌<◌, List, [], ◌∷◌, if◌then◌else◌, ltb, Bool, true, false, Option,
  none, some, map, ◌≡◌, refl, ap, arith, length, Bool-cases, inl, inr,
}

-- The fields of `TaskStatus_t` that are printed.
pub record Status : Type 0 where
  pub name : List ℕ
  pub run_time : ℕ

-- A row; `none` is printed as <1.
pub record Row : Type 0 where
  pub name : List ℕ
  pub run_time : ℕ
  pub percent : Option ℕ

-- The row of a task, where `hundredth` is the whole run time divided by 100, and not 0.
pub row : ℕ → Status → Row
row hundredth t =
    let percent = t.run_time / hundredth in
    record {
      name = t.name;
      run_time = t.run_time;
      percent = if ltb 0 percent then some percent else none;
    }

-- The rows for the tasks that the system reports with its whole run time, if the array for them was
-- given: no rows without it.
pub stats : Bool → ℕ → List Status → List Row
unfolding row
stats false total tasks = []
stats true total tasks = if ltb 0 (total / 100) then map (row (total / 100)) tasks else []

abbrev pub percents : List Row → ℕ
percents [] = 0
percents (r ∷ rows) = elim r.percent [ none ↦ 0 | some p ↦ p ] + percents rows

abbrev pub run_times : List Status → ℕ
run_times [] = 0
run_times (t ∷ tasks) = t.run_time + run_times tasks

percents-row :
    (h : ℕ) (tasks : List Status) → 0 < h → percents (map (row h) tasks) * h ≤ run_times tasks
unfolding row
percents-row h [] p = omega arith
percents-row h (t ∷ tasks) p = grind (arith, percents-row h tasks p)

length-map-row : (h : ℕ) (tasks : List Status) → length (map (row h) tasks) ≡ length tasks
length-map-row h [] = refl
length-map-row h (t ∷ tasks) = ap suc (length-map-row h tasks)

-- There is a row for each task if the whole run time is 100 at least, and none otherwise; and the
-- percentages of all rows, times a hundredth of the whole run time, are together at most the run
-- times of the tasks.
pub stats_shares :
    (total : ℕ) (tasks : List Status)
    → (length (stats true total tasks) ≡ (if ltb total 100 then 0 else length tasks))
      × (percents (stats true total tasks) * (total / 100) ≤ run_times tasks)
unfolding stats
stats_shares total tasks = elim (Bool-cases (ltb 0 (total / 100))) [
  | inl long ↦
      let long' : ltb total 100 ≡ false = ground arith in
      rw (long, long')
        (length-map-row (total / 100) tasks, percents-row (total / 100) tasks (ground arith))
  | inr short ↦
      let short' : ltb total 100 ≡ true = ground arith in rw (short, short') (refl, omega arith)
]
