-- ===== src/Planar/Published.antt =====
-- Planar_Controller/xbot_planner.py: what one report publishes, and what a task keeps of it.
use ap2030_uns.Prelude.{
  ◌≡◌, ◌∙◌, sym, refl, ap, ℕ, String, Bool, true, false, not, ◌&&◌, Option, none, some, List, [],
  ◌∷◌, eq_iff, str_eq, arith, if◌then◌else◌, ◌==◌,
}
use ap2030_uns.Planar.Controller.{
  Controller, Task, Call, xbot_state, is_last, reports, report_task, task_of, set_task, report,
}

-- The state that was published last of a mover.
abbrev pub last_published : ℕ → List Call → Option String
last_published j [] = none
last_published j (xbot_state i s uuid ∷ log) = if i == j then some s else last_published j log
last_published j (_ ∷ log) = last_published j log

-- What a task has for its last reported state was published last.
abbrev pub AllPublished : Controller → Type 0
AllPublished m =
    (j : ℕ) (t : Task) (s : String)
    → task_of j m.xbots ≡ some t
    → t.last_reported_state ≡ some s
    → last_published j m.log ≡ some s

pub task_of-set_task :
    (i j : ℕ) (t : Task) (d : List (ℕ × Task))
    → task_of j (set_task i t d) ≡ (if i == j then some t else task_of j d)
task_of-set_task i j t [] = refl
task_of-set_task i j t ((k, u) ∷ d) = ground (arith, task_of-set_task i j t d)

pub some_inj : (t u : Task) → some t ≡ some u → t ≡ u
some_inj t u e = ap (λ o. elim o as (λ x. Task) [ none ↦ t | some x ↦ x ]) e

is_last_eq : (o : Option String) (s : String) → is_last o s ≡ true → o ≡ some s
is_last_eq none s h = cc
is_last_eq (some t) s h = ap some ((eq_iff t s).0 h)

same_task : (i j : ℕ) (d : List (ℕ × Task)) → (i == j) ≡ true → task_of i d ≡ task_of j d
same_task i j d e = ap (λ z. task_of z d) (same i j e)
  where
    same : (i j : ℕ) → (i == j) ≡ true → i ≡ j
    same i j e = ground (arith, e)

pub report-AllPublished :
    (id : ℕ) (s : String) (o : Option Task) (m : Controller)
    → AllPublished m
    → AllPublished (report id s o m)
report-AllPublished id s none m h = h
report-AllPublished id s (some u) m h = by_flag (reports s u)
  where
    by_id :
        (j : ℕ) (t : Task) (w : String) (b : Bool)
        → (if b then some (report_task s u) else task_of j m.xbots) ≡ some t
        → t.last_reported_state ≡ some w
        → (if b then some s else last_published j m.log) ≡ some w
    by_id j t w true e f =
        ap (λ (x : Task). x.last_reported_state) (some_inj (report_task s u) t e) ∙ f
    by_id j t w false e f = h j t w e f

    by_flag :
        (b : Bool)
        → AllPublished (
            if b
            then record m {
              xbots = set_task id (report_task s u) m.xbots;
              log = xbot_state id s u.uuid ∷ m.log;
            }
            else m)
    by_flag false = h
    by_flag true = λ j t w e f.
        by_id j t w (id == j) (sym (task_of-set_task id j (report_task s u) m.xbots) ∙ e) f

-- A report is published, or it was before.
pub report-last_published :
    (id j : ℕ) (s : String) (o : Option Task) (m : Controller)
    → AllPublished m
    → task_of id m.xbots ≡ o
    → (t : Task) → task_of j m.xbots ≡ some t
    → (id == j) ≡ true
    → last_published j (report id s o m).log ≡ some s
report-last_published id j s none m h e t f k = absurd (clash (same_task id j m.xbots k))
  where
    clash : task_of id m.xbots ≡ task_of j m.xbots → ⊥
    clash g = cc
report-last_published id j s (some u) m h e t f k = by_flag (reports s u) refl
  where
    by_flag :
        (b : Bool)
        → reports s u ≡ b
        → last_published j
            (if b
              then record m {
                xbots = set_task id (report_task s u) m.xbots;
                log = xbot_state id s u.uuid ∷ m.log;
              }
              else m).log
          ≡ some s
    by_flag true q = ap (λ b. if b then some s else last_published j m.log) k
    by_flag false q = h j u s (sym (same_task id j m.xbots k) ∙ e) (
        is_last_eq u.last_reported_state s
          (parts (is_last u.last_reported_state s) (not (str_eq s "Complete")) q))
      where
        parts : (a b : Bool) → not (a && b) ≡ false → a ≡ true
        parts a b g = ground (arith, g)

pub report-keeps :
    (id j : ℕ) (s : String) (o : Option Task) (m : Controller)
    → last_published j m.log ≡ some s
    → last_published j (report id s o m).log ≡ some s
report-keeps id j s none m h = h
report-keeps id j s (some u) m h = by_flag (reports s u)
  where
    by_id : (b : Bool) → (if b then some s else last_published j m.log) ≡ some s
    by_id true = refl
    by_id false = h

    by_flag :
        (b : Bool)
        → last_published j
            (if b
              then record m {
                xbots = set_task id (report_task s u) m.xbots;
                log = xbot_state id s u.uuid ∷ m.log;
              }
              else m).log
          ≡ some s
    by_flag true = by_id (id == j)
    by_flag false = h

pub report-some :
    (id j : ℕ) (s : String) (o : Option Task) (m : Controller) (t : Task)
    → task_of j m.xbots ≡ some t
    → (v : Task) × (task_of j (report id s o m).xbots ≡ some v)
report-some id j s none m t h = (t, h)
report-some id j s (some u) m t h = by_flag (reports s u)
  where
    by_id :
        (b : Bool)
        → (v : Task) × ((if b then some (report_task s u) else task_of j m.xbots) ≡ some v)
    by_id true = (report_task s u, refl)
    by_id false = (t, h)

    by_flag :
        (b : Bool)
        → (v : Task) × (task_of j
              (if b
                then record m {
                  xbots = set_task id (report_task s u) m.xbots;
                  log = xbot_state id s u.uuid ∷ m.log;
                }
                else m).xbots
            ≡ some v)
    by_flag true =
        let (v, e) = by_id (id == j) in (v, task_of-set_task id j (report_task s u) m.xbots ∙ e)
    by_flag false = (t, h)
