-- ===== src/Model/Efsm.antt =====
-- libmodel/model_efsm.h: a state machine over a host object, with callbacks on events, states and
-- transitions. A callback is a function on the host; `none` is an empty `std::function`. It gets
-- the other state's key and description where the code hands it a `State&`, and it does not change
-- the machine that calls it.
pub mod Registry
pub mod Trigger
pub mod Runs
mod Examples
use Prim.Native.String.{String}
use comm_libs.Common.{zero, suc, Bool, true, false, none, some, [], if◌then◌else◌, ◌==◌}
use mathlib.Core.Option
use mathlib.Core.Option.{Option}
use mathlib.Core.Bool.{decide}
use comm_libs.Integer.{ℤ, pos, negsuc}
use comm_libs.StdMap.{Map, any_key, find, assign, erase}

-- model_return.h over base return.h; `MODEL_ERROR_CODE_MODULE` is 0x1000 + 0x100 * 6.
abbrev pub success : ℤ
success = pos 0

abbrev pub efsm_event_enotexist : ℤ
efsm_event_enotexist = pos 0x1601

abbrev pub efsm_event_etransexist : ℤ
efsm_event_etransexist = pos 0x1602

abbrev pub efsm_state_enotexist : ℤ
efsm_state_enotexist = pos 0x1603

abbrev pub efsm_state_etransexist : ℤ
efsm_state_etransexist = pos 0x1604

abbrev pub efsm_trans_enotexist : ℤ
efsm_trans_enotexist = pos 0x1605

-- `rc == Return::SUCCESS`
abbrev pub is_success : ℤ → Bool
is_success (pos zero) = true
is_success (pos (suc n)) = false
is_success (negsuc n) = false

-- A `Return(H*)` callback with what it makes of the host.
abbrev pub Callback : Type 0 → Type 0
Callback H = H → ℤ × H

pub record Event (H E : Type 0) : Type 0 where
  pub event : E
  pub describe : String
  pub process : Option (Callback H)

pub record State (H S : Type 0) : Type 0 where
  pub state : S
  pub describe : String
  pub enter : Option (S × String → Callback H)
  pub exit : Option (S × String → Callback H)
  pub update : Option (Callback H)

pub record Transition (H E S : Type 0) : Type 0 where
  pub event : E
  pub state : S
  pub to_state : S
  pub describe : String
  pub check : Option (Callback H)
  pub complete : Option (Callback H)

pub record Efsm (H E S : Type 0) : Type 0 where
  pub host : H
  pub state : S
  pub event_map : Map E (Event H E)
  pub state_map : Map S (State H S)
  pub trans_map : Map (E × S) (Transition H E S)

-- How a call ends: with a code, or with the exception of calling an empty `std::function`.
pub data Outcome : Type 0 where
  returned : ℤ → Outcome
  bad_function_call : Outcome

-- One call in a row of calls, each made only if all before it succeeded.
abbrev pub Stage : Type 0 → Type 0
Stage H = H → Outcome × H

infixl 5 ◌>>◌
abbrev ◌>>◌ : {H : Type 0} → Outcome × H → Stage H → Outcome × H
(returned rc, h) >> next = if is_success rc then next h else (returned rc, h)
(bad_function_call, h) >> next = (bad_function_call, h)

-- `if (f != NULL) { rc = f(host_); … }`
abbrev pub call_if_set : {H : Type 0} → Option (Callback H) → Stage H
call_if_set none h = (returned success, h)
call_if_set (some f) h = let (rc, h') = f h in (returned rc, h')

-- A call with no such test.
abbrev pub call_unchecked : {H : Type 0} → Option (Callback H) → Stage H
call_unchecked none h = (bad_function_call, h)
call_unchecked (some f) h = let (rc, h') = f h in (returned rc, h')

-- A lookup that ends the handler with a code where it finds nothing.
pub data Result (A : Type 0) : Type 0 where
  ok : A → Result A
  err : ℤ → Result A

abbrev pub need : {A : Type 0} → ℤ → Option A → Result A
need rc none = err rc
need rc (some a) = ok a

infixl 5 ◌>>=◌
abbrev ◌>>=◌ : {A B : Type 0} → Result A → (A → Result B) → Result B
ok a >>= f = f a
err rc >>= f = err rc

abbrev is_some : {A : Type 0} → Option A → Bool
is_some none = false
is_some (some a) = true

-- The copy constructor and the assignment of `Event` over what the map holds: neither takes `process`.
abbrev pub event_copy : {H E : Type 0} → Event H E → Option (Event H E) → Event H E
event_copy e none = record e { process = none }
event_copy e (some old) = record e { process = old.process }

-- `==` on `std::pair<EventType, StateType>`
pub pair_discrete : {E S : Type 0} → Discrete E → Discrete S → Discrete (E × S)
pair_discrete same_e same_s = hlevel (same_e, same_s)

module _ {H E S : Type 0} (same_e : Discrete E) (same_s : Discrete S) where
  pub add_event : Event H E → Efsm H E S → ℤ × Efsm H E S
  add_event e m = (
    success,
    record m {
      event_map =
          assign same_e e.event (event_copy e (find same_e e.event m.event_map)) m.event_map;
    },
  )

  pub add_state : State H S → Efsm H E S → ℤ × Efsm H E S
  add_state s m = (success, record m { state_map = assign same_s s.state s m.state_map })

  pub add_transition : Transition H E S → Efsm H E S → ℤ × Efsm H E S
  add_transition t m = (
    success,
    record m { trans_map = assign (pair_discrete same_e same_s) (t.event, t.state) t m.trans_map },
  )

  pub del_event : E → Efsm H E S → ℤ × Efsm H E S
  del_event e m =
      if is_some (find same_e e m.event_map)
      then if any_key (λ k. decide (same_e k.0 e)) m.trans_map
        then (efsm_event_etransexist, m)
        else (success, record m { event_map = erase same_e e m.event_map })
      else (success, m)

  pub del_state : S → Efsm H E S → ℤ × Efsm H E S
  del_state s m =
      if is_some (find same_s s m.state_map)
      then if any_key (λ k. decide (same_s k.1 s)) m.trans_map
        then (efsm_state_etransexist, m)
        else (success, record m { state_map = erase same_s s m.state_map })
      else (success, m)

  pub del_transition : E → S → Efsm H E S → ℤ × Efsm H E S
  del_transition e s m =
      (success, record m { trans_map = erase (pair_discrete same_e same_s) (e, s) m.trans_map })

  pub get_state : S → Efsm H E S → Option (State H S)
  get_state s m = find same_s s m.state_map

  pub get_transition : E → S → Efsm H E S → Option (Transition H E S)
  get_transition e s m = find (pair_discrete same_e same_s) (e, s) m.trans_map

  unfoldable pub clear : Efsm H E S → Efsm H E S
  clear m = record m { event_map = []; state_map = []; trans_map = [] }

  unfoldable pub change_state_force : S → Efsm H E S → Efsm H E S
  change_state_force s m = record m { state = s }

  -- The four lookups of `Trigger`, in its order.
  targets : E → Efsm H E S → Result (Event H E × Transition H E S × State H S × State H S)
  targets e m = do
    ev ← need efsm_event_enotexist (find same_e e m.event_map)
    tr ← need efsm_trans_enotexist (find (pair_discrete same_e same_s) (e, m.state) m.trans_map)
    st ← need efsm_state_enotexist (find same_s m.state m.state_map)
    nx ← need efsm_state_enotexist (find same_s tr.to_state m.state_map)
    ok (ev, tr, st, nx)

  -- `update` is called where `exit` is set.
  stay : State H S → Stage H
  stay st h = elim st.exit [ none ↦ (returned success, h) | some f ↦ call_unchecked st.update h ]

  leave : State H S → State H S → Stage H
  leave st nx h =
      call_if_set (Option.map (λ f. f (nx.state, nx.describe)) st.exit) h
      >> call_if_set (Option.map (λ f. f (st.state, st.describe)) nx.enter)

  -- The callbacks of `Trigger`, in its order.
  pub calls : Bool → Event H E × Transition H E S × State H S × State H S → Stage H
  unfolding stay leave
  calls keeps (ev, tr, st, nx) h =
      call_if_set tr.check h
      >> call_if_set ev.process
      >> (λ h. if keeps then stay st h else leave st nx h)
      >> call_if_set tr.complete

  -- The end of `Trigger`: `state_` changes last, and only if all calls succeeded.
  pub settle : S → Efsm H E S → Outcome × H → Outcome × Efsm H E S
  settle next m (returned rc, h) =
      if is_success rc
      then (returned success, record m { host = h; state = next })
      else (returned rc, record m { host = h })
  settle next m (bad_function_call, h) = (bad_function_call, record m { host = h })

  trigger_on :
      Result (Event H E × Transition H E S × State H S × State H S)
      → Efsm H E S
      → Outcome × Efsm H E S
  unfolding calls settle
  trigger_on (err rc) m = (returned rc, m)
  trigger_on (ok (ev, tr, st, nx)) m =
      settle tr.to_state m (calls (decide (same_s tr.to_state m.state)) (ev, tr, st, nx) m.host)

  pub trigger : E → Efsm H E S → Outcome × Efsm H E S
  unfolding targets trigger_on
  trigger e m = trigger_on (targets e m) m
