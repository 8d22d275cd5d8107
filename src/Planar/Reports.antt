-- ===== src/Planar/Reports.antt =====
-- Planar_Controller/xbot_planner.py: the states that are published of the movers.
use ap2030_uns.Prelude.{ℕ, Bool, false, ◌||◌, List, [], ◌∷◌, ◌==◌}
use ap2030_uns.Planar.Controller.{
  Controller, stopping, deactivate_xbots, stop_all_xbots, set_system_state, call,
}

is_among_keys : ℕ → List ℕ → Bool
is_among_keys j [] = false
is_among_keys j (i ∷ is) = (i == j) || is_among_keys j is

-- The controller before the reports of a Stop command.
abbrev stopping_now : Controller → Controller
stopping_now m = call deactivate_xbots (stop_all_xbots (set_system_state stopping m))
