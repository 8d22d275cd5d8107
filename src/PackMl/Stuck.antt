-- ===== src/PackMl/Stuck.antt =====
-- A Start command at an idle station: STARTING with an empty queue has no way on by requests.
use ap2030_uns.Prelude.{◌≡◌, refl, ◌∙◌, Bool, true, false, Option, List, [], ◌∷◌, All}
use ap2030_uns.Prelude.{arith, String}
use ap2030_uns.Prelude.Dict.{Dict}
use ap2030_uns.PackMl.Machine.{Uuid, Machine, idle, starting}
use ap2030_uns.PackMl.Commands.{state_command, start}
use ap2030_uns.PackMl.Occupation.{register_callback, register_command}
use ap2030_uns.PackMl.Execution.{execute_command, end_thread, reject}
use ap2030_uns.PackMl.Control.{state-state_command}
use ap2030_uns.PackMl.Trace.{after, Event, state_message, occupy_message, release_message}
use ap2030_uns.PackMl.Trace.{execute_message, thread_end, step, run}

-- What the station's clients and its own threads do, other than leaving and state commands.
abbrev pub is_request : Event → Bool
is_request (occupy_message u) = true
is_request (execute_message d can) = true
is_request (thread_end u r) = true
is_request _ = false

state-reject : (d : Dict String) (m : Machine) → (reject d m).state ≡ m.state
state-reject [] m = refl
state-reject ((k, v) ∷ d) m = refl

state-register :
    (u : Option Uuid) (m : Machine)
    → m.state ≡ starting
    → (after (register_callback u m)).state ≡ starting
unfolding register_callback register_command
state-register u m s = ground arith

step-starting :
    (e : Event) (m : Machine)
    → is_request e ≡ true
    → m.state ≡ starting
    → (after (step e m)).state ≡ starting
unfolding step execute_command end_thread
step-starting (occupy_message u) m r s = ground (arith, state-register u m)
step-starting (execute_message d can) m r s = ground (arith, state-reject d m)
step-starting (thread_end u r') m r s = s
step-starting (state_message d) m r s = cc
step-starting (release_message u) m r s = cc

run-starting :
    (es : List Event) (m : Machine)
    → All (λ e. is_request e ≡ true) es
    → m.state ≡ starting
    → (run m es).state ≡ starting
unfolding run
run-starting [] m r s = s
run-starting (e ∷ es) m r s = run-starting es (after (step e m)) r.1 (step-starting e m r.0 s)

started :
    (m : Machine) → m.state ≡ idle → m.uuids ≡ [] → (after (state_command start m)).state ≡ starting
started m s q = state-state_command start m (ground arith) (λ k. q) ∙ ground arith

-- After a Start command at an idle station with an empty queue, no sequence of occupation requests,
-- execute commands and ends of threads brings the station out of STARTING.
pub start_then_requests :
    (m : Machine) (es : List Event)
    → m.state ≡ idle
    → m.uuids ≡ []
    → All (λ e. is_request e ≡ true) es
    → (run (after (state_command start m)) es).state ≡ starting
start_then_requests m es s q r = run-starting es _ r (started m s q)
