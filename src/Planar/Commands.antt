-- ===== src/Planar/Commands.antt =====
-- What the controller's commands leave, and what holds after any list of them.
use ap2030_uns.Prelude.{
  ◌≡◌, inl, inr, ◌∙◌, sym, refl, ap, ℕ, String, true, false, Option, none, some,
}
use ap2030_uns.Prelude.{List, [], ◌∷◌, arith, Bool-cases, Option-cases}
use ap2030_uns.Planar.Controller.{ControllerState, idle, execute, held, stopped, is_among, report}
use ap2030_uns.Planar.Controller.{Controller, Task, task_of, set_task, publish_state, publish_each}
use ap2030_uns.Planar.Controller.{
  Command, start, stop, hold, unhold, clear, reset, accepts, perform,
}
use ap2030_uns.Planar.Controller.{add_xbot_task, command_of, execute_button, handle_command, create}

-- The state in which a command leaves the controller.
abbrev pub target : Command → ControllerState
target start = execute
target stop = stopped
target hold = held
target unhold = execute
target clear = stopped
target reset = idle

state-report :
    (id : ℕ) (s : String) (o : Option Task) (m : Controller)
    → ((report id s o m).state ≡ m.state) × ((report id s o m).resumed ≡ m.resumed)
state-report id s none m = (refl, refl)
state-report id s (some t) m = ground arith

publish_each-same :
    (ids : List ℕ) (s : String) (m : Controller)
    → ((publish_each ids s m).state ≡ m.state) × ((publish_each ids s m).resumed ≡ m.resumed)
unfolding publish_each
publish_each-same [] s m = (refl, refl)
publish_each-same (id ∷ ids) s m =
    let rest = publish_each-same ids s (publish_state id s m) in
    let first = state-report id s (task_of id m.xbots) m in (rest.0 ∙ first.0, rest.1 ∙ first.1)

-- Between messages the controller is idle, executing, held or stopped, and movers may move just
-- when it executes.
pub record IsSettled (m : Controller) : Type 0 where
  pub state : is_among m.state (idle ∷ execute ∷ held ∷ stopped ∷ []) ≡ true
  pub moving : m.resumed ≡ is_among m.state (execute ∷ [])

-- A command that is accepted ends in its target state, and one that is not changes nothing.
pub execute_button_lem :
    (c : Command) (m : Controller)
    → (accepts c m.state ≡ true
        → ((execute_button c m).state ≡ target c) × IsSettled (execute_button c m))
      × (accepts c m.state ≡ false → execute_button c m ≡ m)
unfolding execute_button
execute_button_lem c m = (λ h. rw h (performs c m), λ h. rw h)
  where
    performs :
        (c : Command) (m : Controller) → ((perform c m).state ≡ target c) × IsSettled (perform c m)
    performs start m = (refl, record { state = refl; moving = refl })
    performs stop m = (refl, record { state = refl; moving = refl })
    performs hold m = (refl, record { state = refl; moving = refl })
    performs unhold m = (refl, record { state = refl; moving = refl })
    performs clear m = (refl, record { state = refl; moving = refl })
    performs reset m = (refl, record { state = refl; moving = refl })

-- A message to the controller, or the start of a mover's task.
pub data Event : Type 0 where
  button : Option String → Event
  task : ℕ → Option String → Event

abbrev pub handle : Event → Controller → Controller
handle (button id) m = handle_command id m
handle (task id uuid) m = add_xbot_task id uuid m

unfoldable pub run : Controller → List Event → Controller
unfolding handle_command add_xbot_task
run m [] = m
run m (e ∷ es) = run (handle e m) es

handle_command-IsSettled :
    (b : Option String) (m : Controller) → IsSettled m → IsSettled (handle_command b m)
unfolding handle_command
handle_command-IsSettled b m v = elim (Option-cases (command_of b)) [
  | inl e ↦ rw (e, handle_command) v
  | inr (c, e) ↦
      rw (e, handle_command)
        (elim (Bool-cases (accepts c m.state)) [
          | inl h ↦ ((execute_button_lem c m).0 h).1
          | inr h ↦ rw ((execute_button_lem c m).1 h) v
        ])
]

handle-IsSettled : (e : Event) (m : Controller) → IsSettled m → IsSettled (handle e m)
unfolding add_xbot_task publish_each
handle-IsSettled (button b) m v = handle_command-IsSettled b m v
handle-IsSettled (task id uuid) m v =
    let added =
      set_task id
        (record { uuid = uuid; current_packml_state = "Idle"; last_reported_state = none })
        m.xbots in
    let p = publish_each-same (id ∷ []) "Idle" (record m { xbots = added }) in
    record {
      state = rw p.0 v.state;
      moving = p.1 ∙ v.moving ∙ ap (λ s. is_among s (execute ∷ [])) (sym p.0);
    }

run_from-IsSettled : (es : List Event) (m : Controller) → IsSettled m → IsSettled (run m es)
unfolding run
run_from-IsSettled [] m v = v
run_from-IsSettled (e ∷ es) m v = run_from-IsSettled es (handle e m) (handle-IsSettled e m v)

-- After any messages and tasks the controller is idle, executing, held or stopped, and the movers'
-- pause event is set exactly when it is executing.
pub run-IsSettled : (es : List Event) → IsSettled (run create es)
unfolding create
run-IsSettled es = run_from-IsSettled es create (record { state = refl; moving = refl })
