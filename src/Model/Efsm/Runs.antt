-- ===== src/Model/Efsm/Runs.antt =====
-- The callbacks that `Trigger` of model_efsm.h runs, and what holds after any number of triggers.
use Prim.Native.String.{String}
use comm_libs.Common.{
  ◌≡◌, ◌≢◌, refl, sym, true, false, none, some, arith, ◌⊎◌, inl, inr, List, [], ◌∷◌, ap, ◌∙◌, zero,
  suc,
}
use comm_libs.Integer.{pos, negsuc}
use comm_libs.StdMap.{Map, find}
use mathlib.Core.Bool.{decide}
use mathlib.Core.Option
use comm_libs.Model.Efsm.{
  Callback, success, Event, State, Transition, Efsm, Outcome, returned, bad_function_call,
  pair_discrete, get_state, calls, settle, trigger,
}
use comm_libs.Model.Efsm.Trigger.{
  run_all, Finds, calls_of_change, trigger-ok, trigger-success, trigger_failure_keeps,
}

decide-true : {A : Type 0} (d : Dec A) → A → decide d ≡ true
unfolding decide
decide-true (yes p) a = refl
decide-true (no n) a = absurd (n a)

decide-false : {A : Type 0} (d : Dec A) → ¬ A → decide d ≡ false
unfolding decide
decide-false (yes p) n = absurd (n p)
decide-false (no q) n = refl

success_cases : (o : Outcome) → (o ≡ returned success) ⊎ (o ≢ returned success)
success_cases (returned (pos zero)) = inl refl
success_cases (returned (pos (suc n))) = inr (λ h. ground arith)
success_cases (returned (negsuc n)) = inr (λ h. ground arith)
success_cases bad_function_call = inr (λ h. ground arith)

module _ {H E S : Type 0} (same_e : Discrete E) (same_s : Discrete S) where
  -- A change of state runs the transition's check, the event's process, the exit of the old state,
  -- the enter of the new one and the transition's complete, in this order, each only if all before
  -- it succeeded, and moves to the new state only if all did.
  pub trigger_of_change :
      (e : E) (m : Efsm H E S) {ev : Event H E} {tr : Transition H E S} {st nx : State H S}
      → Finds same_e same_s e m ev tr st nx
      → tr.to_state ≢ m.state
      → trigger same_e same_s e m
        ≡ settle same_e same_s tr.to_state m (
            run_all
              (tr.check
                ∷ ev.process
                ∷ Option.map (λ f. f (nx.state, nx.describe)) st.exit
                ∷ Option.map (λ f. f (st.state, st.describe)) nx.enter
                ∷ tr.complete
                ∷ [])
              m.host)
  trigger_of_change e m {ev} {tr} {st} {nx} f ne =
      trigger-ok same_e same_s e m f
      ∙ rw (decide-false (same_s tr.to_state m.state) ne) (
          ap (settle same_e same_s tr.to_state m)
            (calls_of_change same_e same_s ev tr st nx m.host))

  -- A transition to the state that the machine is in, without a check and with no process of its
  -- event, whose state has an exit and no update, ends in the exception of an empty function and
  -- changes nothing: the code tests `exit` and calls `update`.
  pub trigger_stay-throws :
      (e : E) (m : Efsm H E S) {ev : Event H E} {tr : Transition H E S} {st nx : State H S}
      {f : S × String → Callback H}
      → Finds same_e same_s e m ev tr st nx
      → tr.to_state ≡ m.state
      → st.exit ≡ some f
      → st.update ≡ none
      → tr.check ≡ none
      → ev.process ≡ none
      → trigger same_e same_s e m ≡ (bad_function_call, m)
  unfolding calls settle
  trigger_stay-throws e m {ev} {tr} {st} {nx} f same h k c p =
      trigger-ok same_e same_s e m f
      ∙ rw (decide-true (same_s tr.to_state m.state) same) (ground arith)

  -- `b` can be reached from `a` along registered transitions.
  pub data Leads (ts : Map (E × S) (Transition H E S)) (a : S) : S → Type 0 where
    here : Leads ts a a
    then :
        {b : S} (e : E) (t : Transition H E S)
        → Leads ts a b
        → find (pair_discrete same_e same_s) (e, b) ts ≡ some t
        → Leads ts a t.to_state

  -- Triggers one after another, whatever each returns.
  pub run : List E → Efsm H E S → Efsm H E S
  run [] m = m
  run (e ∷ es) m = run es (trigger same_e same_s e m).1

  abbrev IsIn : Map (E × S) (Transition H E S) → Map S (State H S) → S → Efsm H E S → Type 0
  IsIn ts ss a m =
      (m.trans_map ≡ ts) × (m.state_map ≡ ss) × Leads ts a m.state × (find same_s m.state ss ≢ none)

  trigger-IsIn :
      (ts : Map (E × S) (Transition H E S)) (ss : Map S (State H S)) (a : S) (e : E)
      (m : Efsm H E S)
      → IsIn ts ss a m
      → IsIn ts ss a (trigger same_e same_s e m).1
  trigger-IsIn ts ss a e m (t, s, l, r) =
      let ((_, s', t'), kept) = trigger_failure_keeps same_e same_s e m in
      elim (success_cases (trigger same_e same_s e m).0) [
        | inl won ↦
            let (_, tr, _, nx, f, moved) = trigger-success same_e same_s e m won in
            (
              t' ∙ t,
              s' ∙ s,
              rw moved (
                  then e tr l
                    (ap (find (pair_discrete same_e same_s) (e, m.state)) (sym t) ∙ f.transition)),
              rw moved (λ z. ground (arith, f.there, ap (find same_s tr.to_state) s, z)),
            )
        | inr lost ↦ (t' ∙ t, s' ∙ s, rw (kept lost) l, rw (kept lost) r)
      ]

  run-IsIn :
      (ts : Map (E × S) (Transition H E S)) (ss : Map S (State H S)) (a : S) (es : List E)
      (m : Efsm H E S)
      → IsIn ts ss a m
      → IsIn ts ss a (run es m)
  unfolding run
  run-IsIn ts ss a [] m h = h
  run-IsIn ts ss a (e ∷ es) m h =
      run-IsIn ts ss a es (trigger same_e same_s e m).1 (trigger-IsIn ts ss a e m h)

  -- From a machine whose state is registered, any list of events, whatever each returns, ends in a
  -- registered state that the registered transitions lead to, with the transitions and the states
  -- unchanged.
  pub run-Leads :
      (es : List E) (m : Efsm H E S)
      → get_state same_e same_s m.state m ≢ none
      → Leads m.trans_map m.state (run es m).state
        × (get_state same_e same_s (run es m).state (run es m) ≢ none)
        × ((run es m).trans_map ≡ m.trans_map)
        × ((run es m).state_map ≡ m.state_map)
  unfolding get_state
  run-Leads es m h =
      let (t, s, l, r) = run-IsIn m.trans_map m.state_map m.state es m (refl, refl, here, h) in
      (l, rw s r, t, s)
