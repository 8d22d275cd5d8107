-- ===== src/PackMl/Process.antt =====
-- What starts a process, and what its end publishes.
use ap2030_uns.Prelude.{
  ◌≡◌, ◌≢◌, ◌⊎◌, refl, Bool, true, false, ◌&&◌, ◌||◌, not, Option, none, some, List, [], ◌∷◌, ◌++◌,
  String,
}
use ap2030_uns.Prelude.{ap, arith, inl, inr, if◌then◌else◌, str_eq, eq_iff, Bool-cases}
use ap2030_uns.Prelude.Dict.{Dict, lookup, get_or, lookup-insert, lookup-erase_self}
use ap2030_uns.Prelude.{contains, sym, subst, ◌↔◌}
use ap2030_uns.PackMl.Machine.{
  truthy, Uuid, Machine, response, running, success, failure, is_state, execute,
}
use ap2030_uns.PackMl.States.{is_uuid}
use ap2030_uns.PackMl.Execution.{auto_queued, reject, try_head, execute_command}
use ap2030_uns.PackMl.Execution.{
  ProcessResult, returned, threw, response_data, merged_fields, end_thread,
}

-- `u` is the head of the queue.
abbrev pub IsHead : Uuid → List Uuid → Type 0
IsHead u [] = ⊥
IsHead u (h ∷ _) = u ≡ h

-- It is the turn of `u`: it is the head of the queue, or the queue is empty and the station
-- queues commands on their arrival, in service mode.
abbrev pub IsServed : Uuid → Machine → Type 0
IsServed u m =
    IsHead u m.uuids
    ⊎ ((m.uuids ≡ [])
        × (m.auto_execute ≡ true)
        × (m.enable_occupation ≡ false)
        × (str_eq u "" ≡ false))

pub record Runs (u : Uuid) (can : Bool) (m n : Machine) : Type 0 where
  pub state : m.state ≡ execute
  pub was_free : m.is_processing ≡ false
  pub served : IsServed u m
  pub threads : n.threads ≡ m.threads ++ (record { uuid = u; can_interrupt = can }) ∷ []
  pub processing : n.is_processing ≡ true
  pub current : n.current_processing_uuid ≡ some u
  pub unflagged : lookup u n.interruption_requested ≡ some false
  pub said : n.log ≡ response (some u) running [] ∷ m.log

pub record Refuses (message : Dict String) (m n : Machine) : Type 0 where
  pub threads : n.threads ≡ m.threads
  pub processing : n.is_processing ≡ m.is_processing
  pub current : n.current_processing_uuid ≡ m.current_processing_uuid
  pub to : Option Uuid
  pub said : n.log ≡ response to failure [] ∷ m.log
  pub reason :
      (m.state ≢ execute)
      ⊎ (m.is_processing ≡ true)
      ⊎ ((u : Uuid) → lookup "Uuid" message ≡ some u → ¬ IsServed u m)

reject-Refuses :
    (message : Dict String) (us : List Uuid) (m : Machine)
    → ((m.state ≢ execute)
        ⊎ (m.is_processing ≡ true)
        ⊎ ((u : Uuid) → lookup "Uuid" message ≡ some u → ¬ IsServed u m))
    → Refuses message m (reject message (record m { uuids = us }))
reject-Refuses [] us m why = record {
  threads = refl;
  processing = refl;
  current = refl;
  to = _;
  said = refl;
  reason = why;
}
reject-Refuses ((k, v) ∷ d) us m why = record {
  threads = refl;
  processing = refl;
  current = refl;
  to = _;
  said = refl;
  reason = why;
}

not-IsHead : (u h : Uuid) (o : Option Uuid) → is_uuid o h ≡ false → o ≡ some u → ¬ (u ≡ h)
not-IsHead u h none e k q = cc
not-IsHead u h (some v) e k q = ground (arith, eq_iff v h)

is_uuid-eq : (h : Uuid) (o : Option Uuid) → is_uuid o h ≡ true → o ≡ some h
is_uuid-eq h none e = cc
is_uuid-eq h (some v) e = ap some ((eq_iff v h).0 e)

-- The head of the queue that a command meets.
IsHead-IsServed :
    (u : Uuid) (us : List Uuid) (auto occupied : Bool)
    → IsHead u (
        if auto && not occupied
        then elim (truthy (some u)) as (λ x. List Uuid) [
          | none ↦ us
          | some x ↦ if contains x us then us else us ++ x ∷ []
        ]
        else us)
      ↔ (IsHead u us ⊎ ((us ≡ []) × (auto ≡ true) × (occupied ≡ false) × (str_eq u "" ≡ false)))
IsHead-IsServed u [] true true =
    ((λ h. absurd h), (λ h. elim h [ inl x ↦ absurd x | inr x ↦ absurd cc ]))
IsHead-IsServed u [] false occupied =
    ((λ h. absurd h), (λ h. elim h [ inl x ↦ absurd x | inr x ↦ absurd cc ]))
IsHead-IsServed u [] true false = by_name (str_eq u "")
  where
    by_name :
        (b : Bool)
        → IsHead u
            (elim (if b then none else some u) as (λ x. List Uuid) [ none ↦ [] | some x ↦ x ∷ [] ])
          ↔ (⊥ ⊎ ((Path (List Uuid) [] []) × (true ≡ true) × (false ≡ false) × (b ≡ false)))
    by_name true = ((λ h. absurd h), (λ h. elim h [ inl x ↦ absurd x | inr x ↦ absurd cc ]))
    by_name false = ((λ h. inr (refl, refl, refl, refl)), (λ h. refl))
IsHead-IsServed u (h ∷ us) auto occupied = by_flag (auto && not occupied)
  where
    old :
        (IsHead u (h ∷ us)
          ⊎ ((h ∷ us ≡ []) × (auto ≡ true) × (occupied ≡ false) × (str_eq u "" ≡ false)))
        → u ≡ h
    old x = elim x [ inl e ↦ e | inr e ↦ absurd cc ]

    by_listed : (b : Bool) → IsHead u (if b then h ∷ us else h ∷ us ++ u ∷ []) ↔ (u ≡ h)
    by_listed true = ((λ e. e), (λ e. e))
    by_listed false = ((λ e. e), (λ e. e))

    by_name :
        (b : Bool)
        → IsHead u (elim (if b then none else some u) as (λ x. List Uuid) [
          | none ↦ h ∷ us
          | some x ↦ if contains x (h ∷ us) then h ∷ us else h ∷ us ++ x ∷ []
        ])
          ↔ (u ≡ h)
    by_name true = ((λ e. e), (λ e. e))
    by_name false = by_listed (contains u (h ∷ us))

    by_flag :
        (b : Bool)
        → IsHead u (
            if b
            then elim (truthy (some u)) as (λ x. List Uuid) [
              | none ↦ h ∷ us
              | some x ↦ if contains x (h ∷ us) then h ∷ us else (h ∷ us) ++ x ∷ []
            ]
            else h ∷ us)
          ↔ (IsHead u (h ∷ us)
              ⊎ ((h ∷ us ≡ []) × (auto ≡ true) × (occupied ≡ false) × (str_eq u "" ≡ false)))
    by_flag true = let n = by_name (str_eq u "") in ((λ e. inl (n.0 e)), (λ x. n.1 (old x)))
    by_flag false = ((λ e. inl e), old)

try_head-cases :
    (us : List Uuid) (message : Dict String) (can : Bool) (m : Machine)
    → m.state ≡ execute
    → ((u : Uuid) → lookup "Uuid" message ≡ some u → IsHead u us ↔ IsServed u m)
    → ((u : Uuid) × (lookup "Uuid" message ≡ some u)
        × Runs u can m (try_head us message can (record m { uuids = us })))
      ⊎ Refuses message m (try_head us message can (record m { uuids = us }))
try_head-cases [] message can m s k =
    inr (reject-Refuses message [] m (inr (inr (λ u e h. (k u e).1 h))))
try_head-cases (h ∷ us) message can m s k =
    elim (Bool-cases (is_uuid (lookup "Uuid" message) h && not m.is_processing)) [
      | inl t ↦ rw t (
          inl (
            h,
            is_uuid-eq h (lookup "Uuid" message) (ground arith),
            record {
              state = s;
              was_free = ground arith;
              served = (k h (is_uuid-eq h (lookup "Uuid" message) (ground arith))).0 refl;
              threads = refl;
              processing = refl;
              current = refl;
              unflagged =
                  ground (arith, lookup-insert h h false m.interruption_requested, eq_iff h h);
              said = refl;
            },
          ))
      | inr t ↦ rw t (
          inr (
            reject-Refuses message (h ∷ us) m (elim (Bool-cases m.is_processing) [
              | inl p ↦ inr (inl p)
              | inr p ↦ inr (
                  inr (λ u e q.
                    not-IsHead u h (lookup "Uuid" message) (ground arith) e ((k u e).1 q)))
            ])))
    ]

-- An execute command either starts a process or is refused. It starts one only in EXECUTE, with
-- nothing in process, for the UUID at the head of the queue, or for any UUID that is not empty
-- where the queue is empty and the station executes commands on arrival without occupation: then
-- one thread is added, the UUID is the current one and not flagged, and RUNNING is published. A
-- refusal publishes FAILURE, leaves threads and process alone, and has one of these for its
-- reason: the state is not EXECUTE, something is in process, or the command's UUID is neither the
-- head of the queue nor taken into an empty one.
pub execute_command-cases :
    (message : Dict String) (can : Bool) (m : Machine)
    → ((u : Uuid) × (lookup "Uuid" message ≡ some u) × Runs u can m (execute_command message can m))
      ⊎ Refuses message m (execute_command message can m)
unfolding execute_command
execute_command-cases message can m = elim (Bool-cases (is_state m.state execute)) [
  | inl e ↦ rw e (
      try_head-cases (auto_queued (lookup "Uuid" message) m) message can m (ground arith) (λ u f.
        subst (λ o. IsHead u (auto_queued o m) ↔ IsServed u m) (sym f)
          (IsHead-IsServed u m.uuids m.auto_execute m.enable_occupation)))
  | inr e ↦ rw e (inr (reject-Refuses message m.uuids m (inl (λ k. ground arith))))
]

-- The status that the end of a process publishes: the `State` of the response data if they have
-- one; else FAILURE if the function raised, or an interruption was requested; else SUCCESS.
abbrev pub reported : ProcessResult → Bool → String
reported (threw e) requested = failure
reported (returned none) requested = if requested then failure else success
reported (returned (some d)) requested = elim (lookup "State" d) [
  | none ↦ if requested then failure else success
  | some s ↦ s
]

-- The `State` of the response data, through the wrapper's own test of it.
status_lem :
    (o : Option String) (requested : Bool)
    → (elim o as (λ o. String) [
      | none ↦
          if requested || str_eq (elim o as (λ o. String) [ none ↦ success | some w ↦ w ]) failure
          then failure
          else success
      | some s ↦ s
    ])
      ≡ (elim o as (λ o. String) [ none ↦ if requested then failure else success | some s ↦ s ])
status_lem none true = refl
status_lem none false = refl
status_lem (some s) requested = refl

-- At its end a process publishes the `State` of its result if it has one, whether or not an
-- interruption was requested, and else FAILURE for an exception or a requested interruption and
-- SUCCESS otherwise; the station then processes nothing, and the UUID's flag and event are gone.
pub end_thread-reported :
    (u : Uuid) (r : ProcessResult) (m : Machine)
    → let requested = get_or u false m.interruption_requested in
      ((end_thread u r m).log
        ≡ response (some u) (reported r requested) (merged_fields (response_data r)) ∷ m.log)
      × ((end_thread u r m).is_processing ≡ false)
      × (lookup u (end_thread u r m).interruption_requested ≡ none)
      × (lookup u (end_thread u r m).processing_events ≡ none)
unfolding end_thread
end_thread-reported u (threw e) m = (
  refl,
  refl,
  lookup-erase_self u m.interruption_requested,
  lookup-erase_self u m.processing_events,
)
end_thread-reported u (returned none) m = (
  refl,
  refl,
  lookup-erase_self u m.interruption_requested,
  lookup-erase_self u m.processing_events,
)
end_thread-reported u (returned (some d)) m = (
  ap (λ s. response (some u) s (merged_fields d) ∷ m.log)
      (status_lem (lookup "State" d) (get_or u false m.interruption_requested)),
  refl,
  lookup-erase_self u m.interruption_requested,
  lookup-erase_self u m.processing_events,
)
