-- ===== src/PackMl/Release.antt =====
-- What leaving the queue does, for a UUID that is not being processed and for one that is.
use ap2030_uns.Prelude.{◌≡◌, refl, sym, ◌∙◌, true, false, ◌&&◌, not, none, some, List, [], ◌∷◌}
use ap2030_uns.Prelude.{tail, ap, arith, inl, inr, str_eq, eq_iff, Bool-cases, contains, remove}
use ap2030_uns.PackMl.Machine.{
  ◌>>◌, PackMlState, Uuid, Machine, Message, Said, done, raised, Outcome, command_status, Op,
}
use ap2030_uns.PackMl.Machine.{
  unregister_topic, publish_command_status, publish_state, success, failure, is_current,
}
use ap2030_uns.PackMl.Machine.{
  idle, starting, execute, completing, complete, resetting, stopped, aborted, is_among,
}
use ap2030_uns.PackMl.States.{confirm_registration, transition}
use ap2030_uns.PackMl.Commands.{interrupt}
use ap2030_uns.PackMl.Occupation.{drop_pending, advance, pop_and_advance, complete_if_empty}
use ap2030_uns.PackMl.Occupation.{
  unregister_active, unregister_head, unregister_waiting, clear_down,
}
use ap2030_uns.PackMl.Occupation.{unregister_queued, unregister_inactive, unregister_command}
use ap2030_uns.PackMl.Settle.{settle, transition-settle}
use ap2030_uns.PackMl.Trace.{after}

-- A release of a UUID that is neither queued nor in process is answered FAILURE, and changes
-- nothing else.
pub unregister_unknown :
    (u : Uuid) (m : Machine)
    → contains u m.uuids ≡ false
    → (m.is_processing && is_current u m) ≡ false
    → unregister_command u m ≡ done (publish_command_status unregister_topic u failure m)
unfolding unregister_command
unregister_unknown u m h k = ground arith

-- The queue after the operation, and what was said.
pub record Leaves (e : Message) (us : List Uuid) (o : Outcome) : Type 0 where
  pub out : Machine
  pub returns : o ≡ done out
  pub queue : out.uuids ≡ us
  pub said : Said e out.log

-- A transition to STARTING keeps the queue and the log's messages.
Leaves-starting :
    (e : Message) (m : Machine) → Said e m.log → Leaves e m.uuids (transition starting none m)
unfolding settle confirm_registration
Leaves-starting e m h = record {
  out = settle starting none m;
  returns = transition-settle starting none m;
  queue = ground arith;
  said = ground arith;
}

-- So does one to COMPLETING with an empty queue.
Leaves-completing :
    (e : Message) (m : Machine) → Said e m.log → Leaves e [] (transition completing (some "#") m)
unfolding settle confirm_registration
Leaves-completing e m h = record {
  out = settle completing (some "#") m;
  returns = transition-settle completing (some "#") m;
  queue = ground arith;
  said = ground arith;
}

Leaves-advance :
    (e : Message) (us : List Uuid) (m : Machine)
    → us ≡ m.uuids
    → Said e m.log
    → Leaves e us (advance us m)
Leaves-advance e [] m q h = Leaves-completing e m h
Leaves-advance e (u ∷ us) m q h =
    let l = Leaves-starting e m h in
    record { out = l.out; returns = l.returns; queue = l.queue ∙ sym q; said = l.said }

Leaves-complete_if_empty :
    (e : Message) (except : List PackMlState) (us : List Uuid) (m : Machine)
    → us ≡ m.uuids
    → Said e m.log
    → Leaves e us (complete_if_empty except us m)
Leaves-complete_if_empty e except (u ∷ us) m q h = record {
  out = m;
  returns = refl;
  queue = sym q;
  said = h;
}
Leaves-complete_if_empty e except [] m q h = elim (Bool-cases (is_among m.state except)) [
  | inl t ↦ record { out = m; returns = rw t; queue = sym q; said = h }
  | inr t ↦
      let l = Leaves-completing e m h in
      record { out = l.out; returns = rw t l.returns; queue = l.queue; said = l.said }
]

Leaves-clear_down : (e : Message) (m : Machine) → Said e m.log → Leaves e m.uuids (clear_down m)
unfolding clear_down
Leaves-clear_down e m h = elim (Bool-cases m.is_processing) [
  | inl t ↦ record { out = m; returns = simp t; queue = refl; said = h }
  | inr t ↦
      let l =
        Leaves-complete_if_empty e
          (idle ∷ resetting ∷ completing ∷ complete ∷ stopped ∷ aborted ∷ []) m.uuids m refl h in
      record { out = l.out; returns = simp t l.returns; queue = l.queue; said = l.said }
]

>>-done : (f g : Op) {m n : Machine} → f m ≡ done n → (f >> g) m ≡ g n
>>-done f g e = ap (λ o. elim o as (λ x. Outcome) [ done n ↦ g n | raised n ↦ raised n ]) e

-- The check at the end, after either case.
Leaves-then :
    (e : Message) (us : List Uuid) (f : Op) (m : Machine)
    → Leaves e us (f m)
    → Leaves e us ((f >> clear_down) m)
Leaves-then e us f m l =
    let r = Leaves-clear_down e l.out l.said in
    record {
      out = r.out;
      returns = >>-done f clear_down l.returns ∙ r.returns;
      queue = r.queue ∙ l.queue;
      said = r.said;
    }

abbrev released : Uuid → Message
released u = command_status unregister_topic u success

unregister_head-Leaves :
    (u : Uuid) (rest : List Uuid) (m : Machine)
    → Leaves (released u) rest (unregister_head u rest m)
unfolding unregister_head
unregister_head-Leaves u rest m =
    let n = publish_command_status unregister_topic u success (record m { uuids = rest }) in
    Leaves-advance (released u) rest (publish_state (drop_pending u n)) refl (ground arith)

unregister_waiting-Leaves :
    (u : Uuid) (m : Machine) → Leaves (released u) (remove u m.uuids) (unregister_waiting u m)
unfolding unregister_waiting
unregister_waiting-Leaves u m =
    let n =
      publish_command_status unregister_topic u success (record m { uuids = remove u m.uuids }) in
    Leaves-complete_if_empty (released u) (idle ∷ resetting ∷ completing ∷ complete ∷ [])
      (remove u m.uuids) (publish_state (drop_pending u n)) refl (ground arith)

unregister_queued-Leaves :
    (u : Uuid) (m : Machine)
    → contains u m.uuids ≡ true
    → Leaves (released u) (remove u m.uuids) (unregister_queued u m)
unregister_queued-Leaves u m h =
    let l =
      Leaves-then (released u) (remove u m.uuids) (unregister_waiting u) m
        (unregister_waiting-Leaves u m) in
    record { out = l.out; returns = rw h l.returns; queue = l.queue; said = l.said }

unregister_inactive-Leaves :
    (u : Uuid) (us : List Uuid) (m : Machine)
    → us ≡ m.uuids
    → contains u m.uuids ≡ true
    → Leaves (released u) (remove u m.uuids) (unregister_inactive u us m)
unregister_inactive-Leaves u [] m q h = unregister_queued-Leaves u m h
unregister_inactive-Leaves u (h' ∷ rest) m q h =
    elim (Bool-cases (str_eq h' u && not m.is_processing)) [
      | inl t ↦
          let l =
            Leaves-then (released u) rest (unregister_head u rest) m
              (unregister_head-Leaves u rest m) in
          let first : str_eq h' u ≡ true = ground arith in
          let same : rest ≡ remove u m.uuids = rw (← q, first) refl in
          record { out = l.out; returns = rw t l.returns; queue = l.queue ∙ same; said = l.said }
      | inr t ↦
          let l = unregister_queued-Leaves u m h in
          record { out = l.out; returns = rw t l.returns; queue = l.queue; said = l.said }
    ]

-- A release of a queued UUID that is not in process ends without an exception and is answered
-- SUCCESS; exactly its first place in the queue is gone, and the others keep their order.
pub unregister_command-Leaves :
    (u : Uuid) (m : Machine)
    → contains u m.uuids ≡ true
    → (m.is_processing && is_current u m) ≡ false
    → Leaves (command_status unregister_topic u success) (remove u m.uuids) (unregister_command u m)
unfolding unregister_command
unregister_command-Leaves u m h k =
    let l = unregister_inactive-Leaves u m.uuids m refl h in
    record { out = l.out; returns = rw k l.returns; queue = l.queue; said = l.said }

Leaves-pop :
    (e : Message) (h : Uuid) (rest us : List Uuid) (m : Machine)
    → us ≡ h ∷ rest
    → Said e m.log
    → Leaves e rest (pop_and_advance us m)
Leaves-pop e h rest [] m q s = cc
Leaves-pop e h rest (x ∷ xs) m q s =
    let l = Leaves-advance e xs (record m { uuids = xs }) refl s in
    record { out = l.out; returns = l.returns; queue = l.queue ∙ ap tail q; said = l.said }

unregister_active-Leaves :
    (u h : Uuid) (rest : List Uuid) (m : Machine)
    → m.uuids ≡ h ∷ rest
    → Leaves (released u) rest (unregister_active u m)
unfolding unregister_active
unregister_active-Leaves u h rest m q =
    Leaves-pop (released u) h rest m.uuids
      (drop_pending u (publish_command_status unregister_topic u success (interrupt u m))) q
      (ground arith)

-- A release of the UUID in process ends without an exception where the queue is not empty, and is
-- answered SUCCESS, but what leaves the queue is its head, whichever UUID that is.
pub unregister_command-pops_head :
    (u h : Uuid) (rest : List Uuid) (m : Machine)
    → (m.is_processing && is_current u m) ≡ true
    → m.uuids ≡ h ∷ rest
    → Leaves (command_status unregister_topic u success) rest (unregister_command u m)
unfolding unregister_command
unregister_command-pops_head u h rest m p q =
    let l =
      Leaves-then (released u) rest (unregister_active u) m
        (unregister_active-Leaves u h rest m q) in
    record { out = l.out; returns = rw p l.returns; queue = l.queue; said = l.said }

restarts :
    (u v : Uuid) (rest us : List Uuid) (m : Machine)
    → us ≡ u ∷ v ∷ rest
    → m.is_processing ≡ false
    → (after (unregister_inactive u us m)).state ≡ execute
unfolding unregister_head clear_down settle confirm_registration
restarts u v rest [] m q p = cc
restarts u v rest (h ∷ []) m q p = cc
restarts u v rest (h ∷ w ∷ us) m q p =
    let n = publish_state (
      drop_pending u
        (publish_command_status unregister_topic u success (record m { uuids = w ∷ us }))) in
    let t : (str_eq h u && not m.is_processing) ≡ true = ground (arith, eq_iff h u) in
    rw t (
      rw
        (>>-done (unregister_head u (w ∷ us)) clear_down {m = m}
          (transition-settle starting none n))
        (ground arith))

-- A release of the head of a queue that holds more, at a station that is not processing, ends in
-- EXECUTE, from whatever state, so from STOPPED and ABORTED too.
pub unregister_command-restarts :
    (u v : Uuid) (rest : List Uuid) (m : Machine)
    → m.is_processing ≡ false
    → m.uuids ≡ u ∷ v ∷ rest
    → (after (unregister_command u m)).state ≡ execute
unfolding unregister_command
unregister_command-restarts u v rest m p q =
    let idle_now : (m.is_processing && is_current u m) ≡ false = ground arith in
    rw idle_now (restarts u v rest m.uuids m q p)
