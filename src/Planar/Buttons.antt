-- ===== src/Planar/Buttons.antt =====
-- The buttons that the controller shows, against the commands that it accepts.
use ap2030_uns.Prelude.{◌≡◌, Bool, true, false, ◌||◌, arith}
use ap2030_uns.Planar.Controller.{ControllerState, holding}
use ap2030_uns.Planar.Controller.{aborting, aborted}
use ap2030_uns.Planar.Controller.{Command, start, stop, hold, unhold, clear, reset}
use ap2030_uns.Planar.Controller.{Buttons, buttons_of, accepts}

abbrev pub is_enabled : Command → Buttons → Bool
is_enabled start b = b.start
is_enabled stop b = b.stop
is_enabled hold b = b.hold
is_enabled unhold b = b.unhold
is_enabled clear b = b.clear
is_enabled reset b = b.reset

-- Commands that are accepted while their button is off: Stop after an abort, and Unhold while the
-- hold is under way.
abbrev pub is_hidden : Command → ControllerState → Bool
is_hidden stop aborting = true
is_hidden stop aborted = true
is_hidden unhold holding = true
is_hidden _ _ = false

-- In every state the controller accepts exactly the commands whose buttons it shows as enabled,
-- and besides them Stop in ABORTING and ABORTED and Unhold in HOLDING.
pub accepts-eq-enabled :
    (c : Command) (s : ControllerState)
    → accepts c s ≡ (is_enabled c (buttons_of s) || is_hidden c s)
unfolding buttons_of
accepts-eq-enabled start s = ground arith
accepts-eq-enabled stop s = ground arith
accepts-eq-enabled hold s = ground arith
accepts-eq-enabled unhold s = ground arith
accepts-eq-enabled clear s = ground arith
accepts-eq-enabled reset s = ground arith
