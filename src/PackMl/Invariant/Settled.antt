-- ===== src/PackMl/Invariant/Settled.antt =====
-- The invariant, and that a transition establishes it.
use ap2030_uns.Prelude.{◌≡◌, ◌≢◌, refl, Bool, true, Option, none, some, List, [], ◌∷◌}
use ap2030_uns.Prelude.{arith, Distinct}
use ap2030_uns.Prelude.Dict.{lookup, lookup-erase}
use ap2030_uns.PackMl.Machine.{PackMlState, Uuid, Machine, is_among}
use ap2030_uns.PackMl.Machine.{idle, starting, execute, completing, complete, resetting}
use ap2030_uns.PackMl.Machine.{held, suspended}
use ap2030_uns.PackMl.Machine.{stopped, aborting, aborted, clearing}
use ap2030_uns.PackMl.States.{call_handler, release, confirm_registration, settle_current}
use ap2030_uns.PackMl.Settle.{enter, settle, settle_starting, settle_idle, settle_reset, left_over}
use ap2030_uns.PackMl.Settle.{completed}

-- The parts that hold at every moment: the queue has no UUID twice, a pending registration is
-- answered to its own UUID, and a machine that is processing knows what.
pub record Base (m : Machine) : Type 0 where
  pub distinct : Distinct m.uuids
  pub own : (u r : Uuid) → lookup u m.pending_registrations ≡ some r → r ≡ u
  pub active : m.is_processing ≡ true → m.current_processing_uuid ≢ none

-- The states in which a callback may leave the machine.
abbrev pub is_resting : PackMlState → Bool
is_resting s = is_among s (idle ∷ starting ∷ execute ∷ held ∷ suspended ∷ stopped ∷ aborted ∷ [])

-- And between callbacks: the state is a resting one, and nothing waits at an idle machine.
pub record Inv (m : Machine) : Type 0 where
  pub base : Base m
  pub resting : is_resting m.state ≡ true
  pub idle_empty : m.state ≡ idle → m.uuids ≡ []

-- One proof for every change of the other attributes.
pub Base-same :
    {m n : Machine}
    → Base m
    → n.uuids ≡ m.uuids
    → n.pending_registrations ≡ m.pending_registrations
    → n.is_processing ≡ m.is_processing
    → n.current_processing_uuid ≡ m.current_processing_uuid
    → Base n
Base-same {m} {n} b e f g h = record {
  distinct = rw e b.distinct;
  own = λ u r k. b.own u r (rw f at k);
  active = λ k. rw h (b.active (rw g at k));
}

pub Base-release : {m : Machine} → Base m → Base (release m)
Base-release b = record { distinct = b.distinct; own = b.own; active = λ k. cc }

Base-confirm : (h : Uuid) (m : Machine) → Base m → Base (confirm_registration h m)
unfolding confirm_registration
Base-confirm h m b = record {
  distinct = b.distinct;
  own = λ u r k. ground (arith, b.own u r, lookup-erase h u m.pending_registrations);
  active = b.active;
}

Distinct-left_over : (p : Option Uuid) (us : List Uuid) → Distinct us → Distinct (left_over p us)
Distinct-left_over p [] d = ground arith
Distinct-left_over p (u ∷ us) d = ground arith

Base-complete :
    (p : Option Uuid) (m : Machine)
    → Base m
    → Base (settle_current p (record m { uuids = left_over p m.uuids }))
Base-complete p m b = record {
  distinct = Distinct-left_over p m.uuids b.distinct;
  own = b.own;
  active = λ k. ground (arith, b.active);
}

settle_starting-Base : (us : List Uuid) (m : Machine) → Base m → Base (settle_starting us m)
settle_starting-Base [] m b = Base-same b refl refl refl refl
settle_starting-Base (u ∷ us) m b =
    let n = record (call_handler "on_starting" (enter starting m)) { current_uuid = some u } in
    Base-same (Base-confirm u n (Base-same b refl refl refl refl)) refl refl refl refl

settle_idle-Base : (us : List Uuid) (m : Machine) → Base m → Base (settle_idle us m)
settle_idle-Base [] m b = Base-same (Base-release b) refl refl refl refl
settle_idle-Base (u ∷ us) m b =
    settle_starting-Base (u ∷ us) (release (enter idle m))
      (Base-same (Base-release b) refl refl refl refl)

settle_reset-Base : (m : Machine) → Base m → Base (settle_reset m)
settle_reset-Base m b =
    settle_idle-Base m.uuids (release (enter resetting m))
      (Base-same (Base-release b) refl refl refl refl)

settle-Base : (s : PackMlState) (p : Option Uuid) (m : Machine) → Base m → Base (settle s p m)
unfolding settle
settle-Base idle p m b = settle_idle-Base m.uuids m b
settle-Base starting p m b = settle_starting-Base m.uuids m b
settle-Base resetting p m b = settle_reset-Base m b
settle-Base complete p m b = settle_reset-Base (enter complete m) (Base-same b refl refl refl refl)
settle-Base completing p m b =
    settle_reset-Base (completed p m) (Base-same (Base-complete p m b) refl refl refl refl)
settle-Base aborting p m b = record { distinct = tt; own = λ u r k. cc; active = λ k. cc }
settle-Base clearing p m b = record { distinct = tt; own = b.own; active = b.active }
settle-Base _ p m b = Base-same b refl refl refl refl

settle-resting :
    (s : PackMlState) (p : Option Uuid) (m : Machine) → is_resting (settle s p m).state ≡ true
unfolding settle confirm_registration
settle-resting idle p m = ground arith
settle-resting starting p m = ground arith
settle-resting resetting p m = ground arith
settle-resting complete p m = ground arith
settle-resting completing p m = ground arith
settle-resting _ p m = refl

settle-idle_empty :
    (s : PackMlState) (p : Option Uuid) (m : Machine)
    → (settle s p m).state ≡ idle
    → (settle s p m).uuids ≡ []
unfolding settle confirm_registration
settle-idle_empty idle p m = ground arith
settle-idle_empty starting p m = ground arith
settle-idle_empty resetting p m = ground arith
settle-idle_empty complete p m = ground arith
settle-idle_empty completing p m = ground arith
settle-idle_empty _ p m = ground arith

pub settle-Inv : (s : PackMlState) (p : Option Uuid) (m : Machine) → Base m → Inv (settle s p m)
settle-Inv s p m b = record {
  base = settle-Base s p m b;
  resting = settle-resting s p m;
  idle_empty = settle-idle_empty s p m;
}
