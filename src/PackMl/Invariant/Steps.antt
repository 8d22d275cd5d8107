-- ===== src/PackMl/Invariant/Steps.antt =====
-- Every callback, on every branch and also where it raises, keeps the invariant.
use ap2030_uns.Prelude.{◌≡◌, refl, false, ◌||◌, ◌&&◌, not, Option, none, some}
use ap2030_uns.Prelude.{List, [], ◌∷◌, arith, Distinct, Distinct-snoc}
use ap2030_uns.Prelude.{Distinct-remove, contains, remove, eq_iff, Bool-cases, str_eq}
use ap2030_uns.Prelude.{inl, inr, subst, sym}
use ap2030_uns.Prelude.Dict.{lookup-erase, lookup-insert}
use ap2030_uns.PackMl.Machine.{
  PackMlState, Uuid, Machine, Outcome, done, raised, Op, ◌>>◌, or_except,
}
use ap2030_uns.PackMl.Machine.{publish_state, publish_command_status, unregister_topic}
use ap2030_uns.PackMl.Machine.{success, is_current, is_state, is_among}
use ap2030_uns.PackMl.Machine.{idle, starting, completing, complete, resetting, stopped, aborted}
use ap2030_uns.PackMl.Commands.{interrupt}
use ap2030_uns.PackMl.Occupation.{enqueue, register_command, drop_pending, advance}
use ap2030_uns.PackMl.Occupation.{pop_and_advance, complete_if_empty, unregister_active}
use ap2030_uns.PackMl.Occupation.{unregister_head, unregister_waiting, clear_down}
use ap2030_uns.PackMl.Occupation.{unregister_queued, unregister_inactive, unregister_command}
use ap2030_uns.PackMl.States.{transition}
use ap2030_uns.PackMl.Settle.{transition-settle}
use ap2030_uns.PackMl.Trace.{after}
use ap2030_uns.PackMl.Invariant.Settled.{Base, Base-same, Inv, settle-Inv}

-- What does not touch the queue, the pending registrations, the process and the state.
pub Inv-same :
    {m n : Machine}
    → Inv m
    → n.uuids ≡ m.uuids
    → n.pending_registrations ≡ m.pending_registrations
    → n.is_processing ≡ m.is_processing
    → n.current_processing_uuid ≡ m.current_processing_uuid
    → n.state ≡ m.state
    → Inv n
Inv-same {m} {n} v e f g h s = record {
  base = Base-same v.base e f g h;
  resting = rw s v.resting;
  idle_empty = λ k. rw e (v.idle_empty (rw s at k));
}

pub Inv-transition :
    (s : PackMlState) (p : Option Uuid) (m : Machine) → Base m → Inv (after (transition s p m))
Inv-transition s p m b = rw transition-settle (settle-Inv s p m b)

Inv-rest :
    (o : Outcome) (g : Op)
    → Inv (after o)
    → ((n : Machine) → Inv n → Inv (after (g n)))
    → Inv (after (elim o [ done n ↦ g n | raised n ↦ raised n ]))
Inv-rest (done n) g v k = k n v
Inv-rest (raised n) g v k = v

pub Inv-seq :
    (f g : Op) (m : Machine)
    → Inv (after (f m))
    → ((n : Machine) → Inv n → Inv (after (g n)))
    → Inv (after ((f >> g) m))
Inv-seq f g m v k = Inv-rest (f m) g v k

Inv-handled :
    (o : Outcome) (g : Op)
    → Inv (after o)
    → ((n : Machine) → Inv n → Inv (after (g n)))
    → Inv (after (elim o [ done n ↦ done n | raised n ↦ g n ]))
Inv-handled (done n) g v k = v
Inv-handled (raised n) g v k = k n v

pub Inv-or_except :
    (f g : Op) (m : Machine)
    → Inv (after (f m))
    → ((n : Machine) → Inv n → Inv (after (g n)))
    → Inv (after (or_except f g m))
Inv-or_except f g m v k = Inv-handled (f m) g v k

Base-enqueue : (u : Uuid) (m : Machine) → contains u m.uuids ≡ false → Base m → Base (enqueue u m)
Base-enqueue u m new b = record {
  distinct = Distinct-snoc u m.uuids b.distinct new;
  own = λ v r k. ground (arith, lookup-insert u v u m.pending_registrations, b.own v r, eq_iff u v);
  active = b.active;
}

pub register_command-Inv : (u : Uuid) (m : Machine) → Inv m → Inv (after (register_command u m))
unfolding register_command
register_command-Inv u m v = elim (Bool-cases (contains u m.uuids || is_current u m)) [
  | inl old ↦ rw old (Inv-same v refl refl refl refl refl)
  | inr new ↦
      let b = Base-enqueue u m (ground arith) v.base in
      elim (Bool-cases (is_state m.state idle)) [
        | inl e ↦ rw (new, e) (Inv-transition starting none (enqueue u m) b)
        | inr e ↦
            rw (new, e)
              (record { base = b; resting = v.resting; idle_empty = λ k. absurd (ground arith) })
      ]
]

Base-drop : (u : Uuid) (m : Machine) → Base m → Base (drop_pending u m)
Base-drop u m b = record {
  distinct = b.distinct;
  own = λ v r k. ground (arith, b.own v r, lookup-erase u v m.pending_registrations);
  active = b.active;
}

Inv-drop : (u : Uuid) (m : Machine) → Inv m → Inv (drop_pending u m)
Inv-drop u m v = record {
  base = Base-drop u m v.base;
  resting = v.resting;
  idle_empty = v.idle_empty;
}

Inv-advance : (us : List Uuid) (m : Machine) → Base m → Inv (after (advance us m))
Inv-advance [] m b = Inv-transition completing (some "#") m b
Inv-advance (u ∷ us) m b = Inv-transition starting none m b

-- A shorter queue, without a word on the state.
Base-queue : (us : List Uuid) (m : Machine) → Distinct us → Base m → Base (record m { uuids = us })
Base-queue us m d b = record { distinct = d; own = b.own; active = b.active }

Inv-pop : (us : List Uuid) (m : Machine) → us ≡ m.uuids → Inv m → Inv (after (pop_and_advance us m))
Inv-pop [] m e v = v
Inv-pop (u ∷ us) m e v =
    let d : Distinct (u ∷ us) = subst Distinct (sym e) v.base.distinct in
    Inv-advance us (record m { uuids = us }) (Base-queue us m d.1 v.base)

Inv-complete_if_empty :
    (except : List PackMlState) (us : List Uuid) (m : Machine)
    → Inv m
    → Inv (after (complete_if_empty except us m))
Inv-complete_if_empty except [] m v = elim (Bool-cases (is_among m.state except)) [
  | inl e ↦ rw e v
  | inr e ↦ rw e (Inv-transition completing (some "#") m v.base)
]
Inv-complete_if_empty except (u ∷ us) m v = v

abbrev shut_states : List PackMlState
shut_states = idle ∷ resetting ∷ completing ∷ complete ∷ stopped ∷ aborted ∷ []

pub clear_down-Inv : (m : Machine) → Inv m → Inv (after (clear_down m))
unfolding clear_down
clear_down-Inv m v = elim (Bool-cases m.is_processing) [
  | inl e ↦ simp e v
  | inr e ↦ simp e (Inv-complete_if_empty shut_states m.uuids m v)
]

unregister_active-Inv : (u : Uuid) (m : Machine) → Inv m → Inv (after (unregister_active u m))
unfolding unregister_active
unregister_active-Inv u m v =
    Inv-pop m.uuids
      (drop_pending u (publish_command_status unregister_topic u success (interrupt u m))) refl
      (Inv-drop u (publish_command_status unregister_topic u success (interrupt u m))
        (Inv-same v refl refl refl refl refl))

unregister_head-Inv :
    (u : Uuid) (rest : List Uuid) (m : Machine)
    → Distinct rest
    → Inv m
    → Inv (after (unregister_head u rest m))
unfolding unregister_head
unregister_head-Inv u rest m d v =
    let n = publish_command_status unregister_topic u success (record m { uuids = rest }) in
    Inv-advance rest (publish_state (drop_pending u n)) (
      Base-same (Base-drop u n (Base-same (Base-queue rest m d v.base) refl refl refl refl)) refl
        refl refl refl)

unregister_waiting-Inv : (u : Uuid) (m : Machine) → Inv m → Inv (after (unregister_waiting u m))
unfolding unregister_waiting
unregister_waiting-Inv u m v =
    let n =
      publish_command_status unregister_topic u success (record m { uuids = remove u m.uuids }) in
    let d = Base-queue (remove u m.uuids) m (Distinct-remove u m.uuids v.base.distinct) v.base in
    let b = Base-drop u n (Base-same d refl refl refl refl) in
    Inv-complete_if_empty (idle ∷ resetting ∷ completing ∷ complete ∷ []) (remove u m.uuids)
      (publish_state (drop_pending u n))
      (record {
        base = Base-same b refl refl refl refl;
        resting = v.resting;
        idle_empty = λ k. rw (v.idle_empty k);
      })

unregister_queued-Inv : (u : Uuid) (m : Machine) → Inv m → Inv (after (unregister_queued u m))
unregister_queued-Inv u m v = elim (Bool-cases (contains u m.uuids)) [
  | inl e ↦
      rw e
        (Inv-seq (unregister_waiting u) clear_down m (unregister_waiting-Inv u m v) clear_down-Inv)
  | inr e ↦ rw e (Inv-same v refl refl refl refl refl)
]

unregister_inactive-Inv :
    (u : Uuid) (us : List Uuid) (m : Machine)
    → us ≡ m.uuids
    → Inv m
    → Inv (after (unregister_inactive u us m))
unregister_inactive-Inv u [] m e v = unregister_queued-Inv u m v
unregister_inactive-Inv u (h ∷ rest) m e v = elim (Bool-cases (str_eq h u && not m.is_processing)) [
  | inl t ↦
      let d : Distinct (h ∷ rest) = subst Distinct (sym e) v.base.distinct in
      rw t (
        Inv-seq (unregister_head u rest) clear_down m (unregister_head-Inv u rest m d.1 v)
          clear_down-Inv)
  | inr t ↦ rw t (unregister_queued-Inv u m v)
]

pub unregister_command-Inv : (u : Uuid) (m : Machine) → Inv m → Inv (after (unregister_command u m))
unfolding unregister_command
unregister_command-Inv u m v = elim (Bool-cases (m.is_processing && is_current u m)) [
  | inl e ↦
      rw e (Inv-seq (unregister_active u) clear_down m (unregister_active-Inv u m v) clear_down-Inv)
  | inr e ↦ rw e (unregister_inactive-Inv u m.uuids m refl v)
]
