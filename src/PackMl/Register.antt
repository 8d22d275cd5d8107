-- ===== src/PackMl/Register.antt =====
-- What an occupation request does: it is refused, it waits, or it starts an idle station.
use ap2030_uns.Prelude.{◌≡◌, true, false, ◌||◌, none, some, [], ◌∷◌, ◌++◌}
use ap2030_uns.Prelude.{arith, str_eq, eq_iff, contains}
use ap2030_uns.Prelude.Dict.{lookup, insert, lookup-insert, lookup-erase}
use ap2030_uns.PackMl.Machine.{Uuid, Machine, Said, done, command_status}
use ap2030_uns.PackMl.Machine.{register_topic, running, success, failure, is_state, is_current, say}
use ap2030_uns.PackMl.Machine.{idle, starting, execute, station_state}
use ap2030_uns.PackMl.States.{confirm_registration}
use ap2030_uns.PackMl.Occupation.{register_command, register_callback}
use ap2030_uns.PackMl.Settle.{settle, transition-settle}

-- A request for a UUID that is queued or current is answered RUNNING, then FAILURE, and changes
-- nothing else. The UUID is not empty.
pub register_callback_refused :
    (u : Uuid) (m : Machine)
    → str_eq u "" ≡ false
    → (contains u m.uuids || is_current u m) ≡ true
    → register_callback (some u) m
      ≡ done (
          say
            (command_status register_topic u failure)
            (say (command_status register_topic u running) m))
unfolding register_callback register_command
register_callback_refused u m t h = ground arith

-- A new request at a station that is not idle goes to the end of the queue and waits there: it is
-- pending, the state stays, and nothing but RUNNING is said of it.
pub register_callback_waits :
    (u : Uuid) (m : Machine)
    → str_eq u "" ≡ false
    → (contains u m.uuids || is_current u m) ≡ false
    → is_state m.state idle ≡ false
    → register_callback (some u) m
      ≡ done (record m {
        uuids = m.uuids ++ u ∷ [];
        pending_registrations = insert u u m.pending_registrations;
        log =
            station_state m.state (m.uuids ++ u ∷ [])
            ∷ command_status register_topic u running
            ∷ m.log;
      })
unfolding register_callback register_command
register_callback_waits u m t h s = ground arith

pub record Starts (u : Uuid) (n : Machine) : Type 0 where
  pub state : n.state ≡ execute
  pub queue : n.uuids ≡ u ∷ []
  pub current : n.current_uuid ≡ some u
  pub confirmed : Said (command_status register_topic u success) n.log
  pub settled : lookup u n.pending_registrations ≡ none

-- A new request at an idle station with an empty queue starts it: the station ends in EXECUTE with
-- the UUID as the whole queue, and the registration is answered SUCCESS and no longer pending.
pub register_callback-Starts :
    (u : Uuid) (m : Machine)
    → str_eq u "" ≡ false
    → is_current u m ≡ false
    → m.state ≡ idle
    → m.uuids ≡ []
    → (n : Machine) × (register_callback (some u) m ≡ done n) × Starts u n
unfolding register_callback register_command settle confirm_registration
register_callback-Starts u m t c s q =
    let r = say (command_status register_topic u running) m in
    let e = record r {
      uuids = m.uuids ++ u ∷ [];
      pending_registrations = insert u u m.pending_registrations;
      log = station_state m.state (m.uuids ++ u ∷ []) ∷ r.log;
    } in
    (
      settle starting none e,
      ground (arith, transition-settle starting none e),
      record {
        state = ground arith;
        queue = ground arith;
        current = ground arith;
        confirmed = ground (arith, lookup-insert u u u m.pending_registrations, eq_iff u u);
        settled = ground (
          arith,
          lookup-insert u u u m.pending_registrations,
          eq_iff u u,
          lookup-erase u u (insert u u m.pending_registrations),
        );
      },
    )
