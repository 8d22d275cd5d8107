-- ===== src/Planar/Examples.antt =====
-- Runs of the controller, and the theorems at them.
use ap2030_uns.Prelude.{◌≡◌, ◌||◌, refl, true, false, some, List, [], ◌∷◌}
use ap2030_uns.Planar.Controller.{
  Controller, aborted, held, stop, create, accepts, buttons_of, execute_button,
}
use ap2030_uns.Planar.Buttons.{is_enabled, is_hidden, accepts-eq-enabled}
use ap2030_uns.Planar.Commands.{
  IsSettled, Event, button, task, run, target, execute_button_lem, run-IsSettled,
}

abbrev shift : List Event
shift = button (some "START") ∷ task 1 (some "u1") ∷ task 2 (some "u2") ∷ button (some "Hold") ∷ []

abbrev paused : Controller
paused = run create shift

paused_state : paused.state ≡ held
unfolding run create
paused_state = refl

accepts-eq-enabled_example :
    accepts stop aborted ≡ (is_enabled stop (buttons_of aborted) || is_hidden stop aborted)
accepts-eq-enabled_example = accepts-eq-enabled stop aborted

execute_button_lem_example :
    (accepts stop paused.state ≡ true
      → ((execute_button stop paused).state ≡ target stop) × IsSettled (execute_button stop paused))
    × (accepts stop paused.state ≡ false → execute_button stop paused ≡ paused)
execute_button_lem_example = execute_button_lem stop paused

run-IsSettled_example : IsSettled (run create shift)
run-IsSettled_example = run-IsSettled shift
