-- ===== src/App/Making/Examples.antt =====
-- Tests of a pane made over the bus, and the theorem at a concrete request.
use lmux.Prelude.{
  ℕ, true, false, none, some, [], ◌∷◌, Text, Result, ok, err, ◌≡◌, contains, contains_key, refl,
  nat_eq,
}
use lmux.Bus.Errors.{BusError}
use lmux.Bus.Kinds.{PanePlacement}
use lmux.Bus.Catalog.{PaneNew}
use lmux.App.{AppState, Pane, new}
use lmux.App.Access.{Failure, input_failed}
use lmux.Layout.{leaves, collect_leaves}
use lmux.App.Making.{bus_target, type_command, create_pane_from_bus}
use lmux.App.Making.Places.{Placed, create_pane_from_bus-Placed}

abbrev shell : Pane
shell = record { is_satellite = false; has_exited = false; argv = []; cwd = [] }

abbrev start : AppState ℕ
start = new 1 shell 40

abbrev request : PaneNew
request = record {
  target_anchor = none;
  placement = PanePlacement.split_down;
  activate = true;
  title = none;
  argv = (b'l' ∷ b's' ∷ []) ∷ [];
  agent = none;
  purpose = none;
}

-- The terminal takes no input.
abbrev broken : Text → Result Failure (Unit {0})
broken text = err (BusError.io input_failed)

start-target : bus_target start request.target_anchor ≡ ok 1
unfolding new
start-target = refl

start-live : contains_key 1 start.panes ≡ true
unfolding new
start-live = refl

start-placed : contains 1 (leaves start.layout) ≡ true
unfolding new leaves collect_leaves
start-placed = refl

create_pane_from_bus-Placed_example :
    Placed start request 1 shell
      (type_command request.argv shell broken)
      (create_pane_from_bus 50 start request (some shell) none broken)
create_pane_from_bus-Placed_example =
    create_pane_from_bus-Placed 50 start request 1 shell none broken start-target start-live
      start-placed
