-- ===== src/PackMl/Invariant/Traces.antt =====
-- The invariant over every list of events.
use ap2030_uns.Prelude.{◌≡◌, refl, Bool, true, false, ◌&&◌, not, Option, none, some}
use ap2030_uns.Prelude.{List, [], ◌∷◌, arith, Distinct-snoc, contains, Bool-cases, Option-cases}
use ap2030_uns.Prelude.{inl, inr, if◌then◌else◌, String}
use ap2030_uns.Prelude.Dict.{Dict, lookup}
use ap2030_uns.PackMl.Machine.{Uuid, Machine, Op, skip, is_state, is_among, truthy, modify}
use ap2030_uns.PackMl.Machine.{
  ◌>>◌, or_except, StatusTopic, publish_command_status, register_topic, unregister_topic,
}
use ap2030_uns.PackMl.Machine.{idle, starting, execute, complete, holding, held, unholding}
use ap2030_uns.PackMl.Machine.{suspending, suspended, unsuspending, stopping, stopped, aborting}
use ap2030_uns.PackMl.Machine.{aborted, clearing, resetting, running, failure}
use ap2030_uns.PackMl.States.{transition, is_uuid}
use ap2030_uns.PackMl.Commands.{StateCommand, start, stop, hold, unhold, clear, reset, suspend}
use ap2030_uns.PackMl.Commands.{unsuspend, abort, interrupt_active, abort_command}
use ap2030_uns.PackMl.Commands.{state_command, state_command_callback, command_of}
use ap2030_uns.PackMl.Occupation.{register_command, register_callback, unregister_command}
use ap2030_uns.PackMl.Occupation.{unregister_callback}
use ap2030_uns.PackMl.Execution.{
  auto_queue, reject, start_process, try_head, execute_command, end_thread,
}
use ap2030_uns.PackMl.Execution.{ProcessResult, create}
use ap2030_uns.PackMl.Trace.{after, Event, state_message, occupy_message, release_message}
use ap2030_uns.PackMl.Trace.{execute_message, thread_end, step, run}
use ap2030_uns.PackMl.Invariant.Settled.{Base-same, Inv}
use ap2030_uns.PackMl.Invariant.Steps.{Inv-same, Inv-transition, Inv-or_except}
use ap2030_uns.PackMl.Invariant.Steps.{register_command-Inv, unregister_command-Inv}

-- A guarded transition: the shape of all state commands but Abort.
Inv-if :
    (b : Bool) (f g : Op) (m : Machine)
    → Inv (after (f m))
    → Inv (after (g m))
    → Inv (after ((if b then f else g) m))
Inv-if true f g m v w = v
Inv-if false f g m v w = w

abort_command-Inv : (m : Machine) → Inv m → Inv (after (abort_command m))
unfolding abort_command
abort_command-Inv m v =
    Inv-transition aborting _ (interrupt_active m) (Base-same v.base refl refl refl refl)

state_command-Inv : (c : StateCommand) (m : Machine) → Inv m → Inv (after (state_command c m))
unfolding state_command
state_command-Inv start m v =
    Inv-if (is_state m.state idle) (transition starting none) skip m
      (Inv-transition starting none m v.base) v
state_command-Inv stop m v =
    Inv-if (is_among m.state (stopped ∷ stopping ∷ aborted ∷ aborting ∷ [])) skip _ m v
      (Inv-transition stopping none m v.base)
state_command-Inv hold m v =
    Inv-if (is_state m.state execute) _ skip m (Inv-transition holding none m v.base) v
state_command-Inv unhold m v =
    Inv-if (is_among m.state (held ∷ holding ∷ [])) _ skip m
      (Inv-transition unholding none m v.base) v
state_command-Inv clear m v =
    Inv-if (is_state m.state aborted) _ skip m (Inv-transition clearing none m v.base) v
state_command-Inv reset m v =
    Inv-if (is_among m.state (stopped ∷ aborted ∷ complete ∷ [])) _ skip m
      (Inv-transition resetting none m v.base) v
state_command-Inv suspend m v =
    Inv-if (is_state m.state execute) _ skip m (Inv-transition suspending none m v.base) v
state_command-Inv unsuspend m v =
    Inv-if (is_among m.state (suspended ∷ suspending ∷ [])) _ skip m
      (Inv-transition unsuspending none m v.base) v
state_command-Inv abort m v =
    Inv-if (is_among m.state (aborted ∷ aborting ∷ [])) skip abort_command m v
      (abort_command-Inv m v)

-- A callback on a text that may be missing or empty.
Inv-optional :
    {A : Type 0} (o : Option A) (f : A → Op) (m : Machine)
    → Inv m
    → ((a : A) → Inv (after (f a m)))
    → Inv (after ((elim o as (λ o. Op) [ none ↦ skip | some a ↦ f a ]) m))
Inv-optional none f m v k = v
Inv-optional (some a) f m v k = k a

state_id_of : Dict String → Option String
state_id_of message = elim (truthy (lookup "StateId" message)) [
  | none ↦ truthy (lookup "ButtonId" message)
  | some s ↦ some s
]

state_command_callback-Inv :
    (d : Dict String) (m : Machine) → Inv m → Inv (after (state_command_callback d m))
unfolding state_command_callback state_id_of
state_command_callback-Inv d m v =
    Inv-optional (state_id_of d) _ m v
      λ id. Inv-optional (command_of id) state_command m v λ c. state_command-Inv c m v

-- `try:` RUNNING, then the command; `except:` FAILURE.
reported-Inv :
    (topic : StatusTopic) (u : Uuid) (f : Op) (m : Machine)
    → ((n : Machine) → Inv n → Inv (after (f n)))
    → Inv m
    → Inv (
        after (
          or_except
            (modify (publish_command_status topic u running) >> f)
            (modify (publish_command_status topic u failure))
            m))
reported-Inv topic u f m keeps v =
    Inv-or_except (modify (publish_command_status topic u running) >> f)
      (modify (publish_command_status topic u failure)) m
      (keeps (publish_command_status topic u running m) (Inv-same v refl refl refl refl refl))
      λ n w. Inv-same {n = publish_command_status topic u failure n} w refl refl refl refl refl

register_callback-Inv :
    (u : Option Uuid) (m : Machine) → Inv m → Inv (after (register_callback u m))
unfolding register_callback
register_callback-Inv u m v =
    Inv-optional (truthy u) _ m v λ uuid.
      reported-Inv register_topic uuid (register_command uuid) m (register_command-Inv uuid) v

unregister_callback-Inv :
    (u : Option Uuid) (m : Machine) → Inv m → Inv (after (unregister_callback u m))
unfolding unregister_callback
unregister_callback-Inv u m v = Inv-optional (truthy u) _ m v λ uuid.
    reported-Inv unregister_topic uuid (unregister_command uuid) m (unregister_command-Inv uuid) v

-- The queue grows in EXECUTE only.
auto_queue-Inv :
    (u : Option Uuid) (m : Machine) → is_state m.state execute ≡ true → Inv m → Inv (auto_queue u m)
auto_queue-Inv u m ex v = elim (Bool-cases (m.auto_execute && not m.enable_occupation)) [
  | inr e ↦ rw e v
  | inl e ↦ elim (Option-cases (truthy u)) [
    | inl n ↦ rw (e, n) v
    | inr (uuid, n) ↦ elim (Bool-cases (contains uuid m.uuids)) [
      | inl c ↦ rw (e, n, c) v
      | inr c ↦
          rw (e, n, c)
            (record {
              base = record {
                distinct = Distinct-snoc uuid m.uuids v.base.distinct c;
                own = v.base.own;
                active = v.base.active;
              };
              resting = v.resting;
              idle_empty = λ k. absurd (ground arith);
            })
    ]
  ]
]

start_process-Inv : (u : Uuid) (can : Bool) (m : Machine) → Inv m → Inv (start_process u can m)
start_process-Inv u can m v = record {
  base = record { distinct = v.base.distinct; own = v.base.own; active = λ k. λ n. cc };
  resting = v.resting;
  idle_empty = v.idle_empty;
}

reject-Inv : (d : Dict String) (m : Machine) → Inv m → Inv (reject d m)
reject-Inv [] m v = Inv-same v refl refl refl refl refl
reject-Inv ((k, x) ∷ d) m v = Inv-same v refl refl refl refl refl

try_head-Inv :
    (us : List Uuid) (d : Dict String) (can : Bool) (m : Machine)
    → Inv m
    → Inv (try_head us d can m)
try_head-Inv [] d can m v = reject-Inv d m v
try_head-Inv (h ∷ us) d can m v =
    elim (Bool-cases (is_uuid (lookup "Uuid" d) h && not m.is_processing)) [
      | inl e ↦ rw e (start_process-Inv h can m v)
      | inr e ↦ rw e (reject-Inv d m v)
    ]

execute_command-Inv :
    (d : Dict String) (can : Bool) (m : Machine) → Inv m → Inv (execute_command d can m)
unfolding execute_command
execute_command-Inv d can m v = elim (Bool-cases (is_state m.state execute)) [
  | inl e ↦ rw e (try_head-Inv _ d can _ (auto_queue-Inv (lookup "Uuid" d) m e v))
  | inr e ↦ rw e (reject-Inv d m v)
]

end_thread-Inv : (u : Uuid) (r : ProcessResult) (m : Machine) → Inv m → Inv (end_thread u r m)
unfolding end_thread
end_thread-Inv u r m v = record {
  base = record { distinct = v.base.distinct; own = v.base.own; active = λ k. cc };
  resting = v.resting;
  idle_empty = v.idle_empty;
}

pub step-Inv : (e : Event) (m : Machine) → Inv m → Inv (after (step e m))
unfolding step
step-Inv (state_message d) m v = state_command_callback-Inv d m v
step-Inv (occupy_message u) m v =
    Inv-if m.enable_occupation (register_callback u) skip m (register_callback-Inv u m v) v
step-Inv (release_message u) m v =
    Inv-if m.enable_occupation (unregister_callback u) skip m (unregister_callback-Inv u m v) v
step-Inv (execute_message d can) m v = execute_command-Inv d can m v
step-Inv (thread_end u r) m v = end_thread-Inv u r m v

create-Inv : (keys : List String) (occupation auto : Bool) → Inv (create keys occupation auto)
unfolding create
create-Inv keys occupation true = record {
  base = record { distinct = tt; own = λ u r k. cc; active = λ k. cc };
  resting = refl;
  idle_empty = λ k. refl;
}
create-Inv keys occupation false = record {
  base = record { distinct = tt; own = λ u r k. cc; active = λ k. cc };
  resting = refl;
  idle_empty = λ k. refl;
}

run_from-Inv : (es : List Event) (m : Machine) → Inv m → Inv (run m es)
unfolding run
run_from-Inv [] m v = v
run_from-Inv (e ∷ es) m v = run_from-Inv es (after (step e m)) (step-Inv e m v)

-- From its creation on, after any messages and ends of threads, a station has no UUID twice in its
-- queue, answers each pending registration to its own UUID, knows what it is processing whenever
-- it is processing, rests in one of IDLE, STARTING, EXECUTE, HELD, SUSPENDED, STOPPED and ABORTED,
-- and has an empty queue when it is IDLE.
pub run-Inv :
    (keys : List String) (occupation auto : Bool) (es : List Event)
    → Inv (run (create keys occupation auto) es)
run-Inv keys occupation auto es = run_from-Inv es _ (create-Inv keys occupation auto)
