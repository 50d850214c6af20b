-- ===== src/Model/Efsm/Examples.antt =====
-- A door: state 0 is shut and 1 is open; event 5 opens it, 6 keeps it open. The host counts.
use comm_libs.Common.{ℕ, ◌+◌, ◌≡◌, ◌≢◌, refl, none, some, [], ◌∷◌, ℕ_discrete, arith, ap, false}
use comm_libs.StdMap.{find, any_key}
use mathlib.Core.Bool.{decide}
use comm_libs.Model.Efsm.{
  Callback, success, Event, State, Transition, Efsm, returned, pair_discrete, add_event, add_state,
  add_transition, del_event, del_state, del_transition, get_state, get_transition, trigger, settle,
}
use comm_libs.Model.Efsm.Trigger.{run_all, Finds, SameMaps, trigger-success, trigger_failure_keeps}
use comm_libs.Model.Efsm.Runs.{trigger_of_change, Leads, run, run-Leads}
use comm_libs.Model.Efsm.Registry.{IsBound, HasNoProcess, registry-IsBound}

abbrev tick : Callback ℕ
tick n = (success, n + 1)

abbrev opening : Event ℕ ℕ
opening = record { event = 5; describe = "open"; process = some tick }

abbrev keeping : Event ℕ ℕ
keeping = record { event = 6; describe = "keep"; process = none }

abbrev shut : State ℕ ℕ
shut = record {
  state = 0;
  describe = "shut";
  enter = none;
  exit = some (λ to. tick);
  update = none;
}

abbrev opened : State ℕ ℕ
opened = record {
  state = 1;
  describe = "open";
  enter = some (λ from. tick);
  exit = some (λ to. tick);
  update = none;
}

abbrev swing : Transition ℕ ℕ ℕ
swing = record {
  event = 5;
  state = 0;
  to_state = 1;
  describe = "swing";
  check = none;
  complete = some tick;
}

abbrev stay_open : Transition ℕ ℕ ℕ
stay_open = record {
  event = 6;
  state = 1;
  to_state = 1;
  describe = "stay";
  check = none;
  complete = none;
}

abbrev door : ℕ → Efsm ℕ ℕ ℕ
door s = record {
  host = 0;
  state = s;
  event_map = (5, opening) ∷ (6, keeping) ∷ [];
  state_map = (0, shut) ∷ (1, opened) ∷ [];
  trans_map = ((5, 0), swing) ∷ ((6, 1), stay_open) ∷ [];
}

door_opens :
    trigger ℕ_discrete ℕ_discrete 5 (door 0) ≡ (returned success, record (door 1) { host = 4 })
unfolding trigger find pair_discrete ℕ_discrete decide
door_opens = refl

Finds-swing : Finds ℕ_discrete ℕ_discrete 5 (door 0) opening swing shut opened
unfolding find pair_discrete ℕ_discrete
Finds-swing = record { event = refl; transition = refl; here = refl; there = refl }

Finds-stay : Finds ℕ_discrete ℕ_discrete 6 (door 1) keeping stay_open opened opened
unfolding find pair_discrete ℕ_discrete
Finds-stay = record { event = refl; transition = refl; here = refl; there = refl }

trigger-success_example :
    (ev : Event ℕ ℕ) × (tr : Transition ℕ ℕ ℕ) × (st : State ℕ ℕ) × (nx : State ℕ ℕ) × Finds
      ℕ_discrete ℕ_discrete 5
      (door 0)
      ev
      tr
      st
      nx
    × ((trigger ℕ_discrete ℕ_discrete 5 (door 0)).1.state ≡ tr.to_state)
trigger-success_example =
    trigger-success ℕ_discrete ℕ_discrete 5 (door 0) (ap (λ r. r.0) door_opens)

trigger_failure_keeps_example :
    SameMaps ℕ_discrete ℕ_discrete (trigger ℕ_discrete ℕ_discrete 7 (door 0)).1 (door 0)
    × ((trigger ℕ_discrete ℕ_discrete 7 (door 0)).0 ≢ returned success
        → (trigger ℕ_discrete ℕ_discrete 7 (door 0)).1.state ≡ 0)
trigger_failure_keeps_example = trigger_failure_keeps ℕ_discrete ℕ_discrete 7 (door 0)

trigger_of_change_example :
    trigger ℕ_discrete ℕ_discrete 5 (door 0)
    ≡ settle ℕ_discrete ℕ_discrete 1
        (door 0)
        (run_all (none ∷ some tick ∷ some tick ∷ some tick ∷ some tick ∷ []) 0)
trigger_of_change_example =
    trigger_of_change ℕ_discrete ℕ_discrete 5 (door 0) Finds-swing (omega arith)

shut_registered : get_state ℕ_discrete ℕ_discrete 0 (door 0) ≢ none
unfolding get_state find ℕ_discrete
shut_registered h = cc

run-Leads_example :
    Leads ℕ_discrete ℕ_discrete
      (door 0).trans_map
      0
      (run ℕ_discrete ℕ_discrete (7 ∷ 5 ∷ 6 ∷ []) (door 0)).state
    × (get_state ℕ_discrete ℕ_discrete
          (run ℕ_discrete ℕ_discrete (7 ∷ 5 ∷ 6 ∷ []) (door 0)).state
          (run ℕ_discrete ℕ_discrete (7 ∷ 5 ∷ 6 ∷ []) (door 0))
        ≢ none)
    × ((run ℕ_discrete ℕ_discrete (7 ∷ 5 ∷ 6 ∷ []) (door 0)).trans_map ≡ (door 0).trans_map)
    × ((run ℕ_discrete ℕ_discrete (7 ∷ 5 ∷ 6 ∷ []) (door 0)).state_map ≡ (door 0).state_map)
run-Leads_example = run-Leads ℕ_discrete ℕ_discrete (7 ∷ 5 ∷ 6 ∷ []) (door 0) shut_registered

-- The door before any transition is added.
abbrev bare : Efsm ℕ ℕ ℕ
bare = record (door 0) { trans_map = [] }

bare-IsBound : IsBound ℕ_discrete ℕ_discrete bare
unfolding find
bare-IsBound e s t h = cc

registry-IsBound_example :
    IsBound ℕ_discrete ℕ_discrete (del_event ℕ_discrete ℕ_discrete 6 bare).1
    × IsBound ℕ_discrete ℕ_discrete (del_state ℕ_discrete ℕ_discrete 1 bare).1
    × IsBound ℕ_discrete ℕ_discrete (del_transition ℕ_discrete ℕ_discrete 6 1 bare).1
    × IsBound ℕ_discrete ℕ_discrete (add_event ℕ_discrete ℕ_discrete opening bare).1
    × IsBound ℕ_discrete ℕ_discrete (add_state ℕ_discrete ℕ_discrete opened bare).1
    × (find ℕ_discrete 5 bare.event_map ≢ none
        → find ℕ_discrete 0 bare.state_map ≢ none
        → IsBound ℕ_discrete ℕ_discrete (add_transition ℕ_discrete ℕ_discrete swing bare).1)
registry-IsBound_example =
    registry-IsBound ℕ_discrete ℕ_discrete 6 1 opening opened swing bare bare-IsBound

-- The door without the transition that starts at the open state.
abbrev one_way : Efsm ℕ ℕ ℕ
one_way = record (door 0) { trans_map = ((5, 0), swing) ∷ [] }

opening_registered : find ℕ_discrete 5 one_way.event_map ≢ none
unfolding find ℕ_discrete
opening_registered h = cc

states_registered :
    (get_state ℕ_discrete ℕ_discrete 1 one_way ≢ none)
    × (get_state ℕ_discrete ℕ_discrete 0 one_way ≢ none)
unfolding get_state find ℕ_discrete
states_registered = (λ h. cc, λ h. cc)

swing_registered : get_transition ℕ_discrete ℕ_discrete 5 0 one_way ≡ some swing
unfolding get_transition find pair_discrete ℕ_discrete
swing_registered = refl

none_from_open : any_key (λ k. decide (ℕ_discrete k.1 1)) one_way.trans_map ≡ false
unfolding any_key decide ℕ_discrete
none_from_open = refl

abbrev noisy : Event ℕ ℕ
noisy = record { event = 9; describe = "noisy"; process = some tick }

nothing-HasNoProcess : HasNoProcess ℕ_discrete ℕ_discrete (record (door 0) { event_map = [] })
unfolding find
nothing-HasNoProcess e ev h = cc
