-- ===== src/Delegation/Examples.antt =====
-- Test data and witnesses for the operation delegation.
use ap2030_uns.Prelude.{
  ◌≡◌, refl, sym, ap, true, false, none, some, String, Bool, List, [], ◌∷◌, if◌then◌else◌, str_eq,
  codes,
}
use ap2030_uns.Prelude.Dict.{lookup}
use ap2030_uns.Delegation.Values.{text, single, Message}
use ap2030_uns.Delegation.Bridge.{
  PendingOperation, Bridge, Event, invoke, command, failed, wait_ends, message, timed_out, response,
  ending_of, new_operation, begin, update_if_async, step, run, create,
}
use ap2030_uns.Delegation.Delivery.{IsConsistent, same_value, run-IsConsistent}
use ap2030_uns.Delegation.Owning.{IsAlone}
use ap2030_uns.Delegation.Alone.{responses, invocation-responses}
use ap2030_uns.Delegation.Isolation.{second_invocation-silences}

abbrev state_message : Message
state_message = ("State", single (text (codes "success"))) ∷ []

abbrev topic_data : String
topic_data = "NN/DATA/State"

abbrev events : List Event
events =
    invoke "a" topic_data true (some (codes "sub|Fill"))
    ∷ command "NN/CMD" []
    ∷ message topic_data (some state_message)
    ∷ message topic_data none
    ∷ invoke "b" "Other/DATA" false none
    ∷ wait_ends "a"
    ∷ failed "b"
    ∷ []

run-IsConsistent_example : IsConsistent (run events (create true))
unfolding run create
run-IsConsistent_example =
    run-IsConsistent true events (refl, (tt, (tt, (tt, (refl, (tt, (tt, tt)))))))

-- An invocation that waits on another topic.
abbrev busy : Bridge
unfolding run
busy = run (invoke "a" topic_data true none ∷ []) (create false)

abbrev apart_events : List Event
apart_events =
    message "Other/DATA" (some state_message)
    ∷ message topic_data (some state_message)
    ∷ wait_ends "a"
    ∷ message "Other/DATA" none
    ∷ []

busy-IsConsistent : IsConsistent busy
unfolding busy run create
busy-IsConsistent = run-IsConsistent false (invoke "a" topic_data true none ∷ []) (refl, tt)

other-IsAlone : IsAlone "b" "Other/DATA" busy
unfolding busy run step begin update_if_async create
other-IsAlone j o q k = by_id (str_eq "a" j) k
  where
    by_id :
        (c : Bool)
        → (if c then some (new_operation topic_data true none) else none) ≡ some o
        → str_eq "Other/DATA" o.response_topic ≡ false
    by_id true f =
        ap (λ (x : PendingOperation). str_eq "Other/DATA" x.response_topic)
          (same_value (some o) o (new_operation topic_data true none) refl (sym f))
    by_id false f = absurd cc

invocation-responses_example :
    lookup "b" (run apart_events (begin "b" "Other/DATA" false none busy)).pending_operations
    ≡ some (responses "Other/DATA" apart_events (new_operation "Other/DATA" false none))
unfolding busy run create
invocation-responses_example =
    invocation-responses "b" "Other/DATA" false none apart_events busy busy-IsConsistent refl
      other-IsAlone (tt, (tt, (refl, (tt, tt))))

responses_test :
    ending_of (responses "Other/DATA" apart_events (new_operation "Other/DATA" false none))
    ≡ response (some state_message)
responses_test = refl

second_invocation-silences_example :
    (lookup "a"
        (run
          (message topic_data (some state_message) ∷ [])
          (begin "b" topic_data false none busy)).pending_operations
      ≡ some (new_operation topic_data true none))
    × ((new_operation topic_data true none).response_received ≡ false
        → ending_of (new_operation topic_data true none) ≡ timed_out)
unfolding busy run create
second_invocation-silences_example =
    second_invocation-silences "a" "b" (new_operation topic_data true none) false none
      (message topic_data (some state_message) ∷ []) busy busy-IsConsistent refl refl (tt, tt)
