-- ===== src/Model/Efsm/Trigger.antt =====
-- What `Trigger` of model_efsm.h does on each of its ways out.
use Prim.Native.String.{String}
use comm_libs.Common.{
  ◌≡◌, ◌≢◌, refl, true, false, Option, none, some, arith, ◌⊎◌, inl, inr, if◌then◌else◌,
}
use comm_libs.Integer.{ℤ, pos, negsuc}
use comm_libs.StdMap.{find}
use mathlib.Core.Bool.{decide}
use mathlib.Core.Option
use comm_libs.Common.{List, [], ◌∷◌, ap, zero, suc}
use mathlib.Core.Path.{fun_ext}
use comm_libs.Model.Efsm.{
  Stage, ◌>>◌, Callback, is_success, call_if_set, success, Event, State, Transition, Efsm, Outcome,
  returned, bad_function_call, Result, ok, err, pair_discrete, targets, calls, settle, trigger_on,
  trigger, stay,
}

-- The callbacks of a list in turn, empty ones left out, up to the first that does not succeed.
pub run_all : {H : Type 0} → List (Option (Callback H)) → H → Outcome × H
run_all [] h = (returned success, h)
run_all (none ∷ fs) h = run_all fs h
run_all (some f ∷ fs) h =
    let rest = run_all fs (f h).1 in
    if is_success (f h).0 then rest else (returned (f h).0, (f h).1)

run_all-cons :
    {H : Type 0} (f : Option (Callback H)) (fs : List (Option (Callback H))) (h : H)
    → run_all (f ∷ fs) h ≡ (call_if_set f h >> run_all fs)
unfolding run_all
run_all-cons none fs h = refl
run_all-cons (some f) fs h = refl

run_all-cons_fun :
    {H : Type 0} (f : Option (Callback H)) (fs : List (Option (Callback H)))
    → run_all (f ∷ fs) ≡ (λ h. call_if_set f h >> run_all fs)
run_all-cons_fun f fs = fun_ext (run_all-cons f fs)

>>_assoc : {H : Type 0} (m : Outcome × H) (f g : Stage H) → (m >> f >> g) ≡ (m >> (λ h. f h >> g))
>>_assoc (returned (pos zero), h) f g = refl
>>_assoc (returned (pos (suc n)), h) f g = refl
>>_assoc (returned (negsuc n), h) f g = refl
>>_assoc (bad_function_call, h) f g = refl

>>_nil : {H : Type 0} (m : Outcome × H) → (m >> run_all []) ≡ m
unfolding run_all
>>_nil (returned (pos zero), h) = refl
>>_nil (returned (pos (suc n)), h) = refl
>>_nil (returned (negsuc n), h) = refl
>>_nil (bad_function_call, h) = refl

module _ {H E S : Type 0} (same_e : Discrete E) (same_s : Discrete S) where
  -- The four entries that `Trigger` finds.
  pub record Finds (e : E) (m : Efsm H E S) (ev : Event H E) (tr : Transition H E S)
      (st nx : State H S) : Type 0 where
    pub event : find same_e e m.event_map ≡ some ev
    pub transition : find (pair_discrete same_e same_s) (e, m.state) m.trans_map ≡ some tr
    pub here : find same_s m.state m.state_map ≡ some st
    pub there : find same_s tr.to_state m.state_map ≡ some nx

  targets-ok :
      (e : E) (m : Efsm H E S) {ev : Event H E} {tr : Transition H E S} {st nx : State H S}
      → targets same_e same_s e m ≡ ok (ev, tr, st, nx)
      → Finds e m ev tr st nx
  unfolding targets
  targets-ok e m h = ground arith

  targets-Finds :
      (e : E) (m : Efsm H E S) {ev : Event H E} {tr : Transition H E S} {st nx : State H S}
      → Finds e m ev tr st nx
      → targets same_e same_s e m ≡ ok (ev, tr, st, nx)
  unfolding targets
  targets-Finds e m h = ground arith

  targets-err :
      (e : E) (m : Efsm H E S) {rc : ℤ} → targets same_e same_s e m ≡ err rc → rc ≢ success
  unfolding targets
  targets-err e m h = ground arith

  -- A machine's maps, which `Trigger` only reads.
  abbrev pub SameMaps : Efsm H E S → Efsm H E S → Type 0
  SameMaps m n =
      (m.event_map ≡ n.event_map) × (m.state_map ≡ n.state_map) × (m.trans_map ≡ n.trans_map)

  settle_maps :
      (s : S) (m : Efsm H E S) (o : Outcome × H) → SameMaps (settle same_e same_s s m o).1 m
  unfolding settle
  settle_maps s m (returned rc, h) = ground arith
  settle_maps s m (bad_function_call, h) = (refl, refl, refl)

  settle_state :
      (s : S) (m : Efsm H E S) (o : Outcome × H)
      → ((settle same_e same_s s m o).0 ≡ returned success
          → (settle same_e same_s s m o).1.state ≡ s)
        × ((settle same_e same_s s m o).0 ≢ returned success
            → (settle same_e same_s s m o).1.state ≡ m.state)
  unfolding settle
  settle_state s m (returned rc, h) = ground arith
  settle_state s m (bad_function_call, h) = ground arith

  -- Where the state does not change, `update` stands for `exit` and `enter`.
  pub calls_of_change :
      (ev : Event H E) (tr : Transition H E S) (st nx : State H S) (h : H)
      → calls same_e same_s false (ev, tr, st, nx) h
        ≡ run_all
            (tr.check
              ∷ ev.process
              ∷ Option.map (λ f. f (nx.state, nx.describe)) st.exit
              ∷ Option.map (λ f. f (st.state, st.describe)) nx.enter
              ∷ tr.complete
              ∷ [])
            h
  unfolding calls
  calls_of_change ev tr st nx h = simp (run_all-cons, run_all-cons_fun, >>_assoc, >>_nil)

  stay_lem :
      (st : State H S) (h : H) {f : S × String → Callback H} {u : Callback H}
      → st.exit ≡ some f
      → st.update ≡ some u
      → stay same_e same_s st h ≡ call_if_set (some u) h
  unfolding stay
  stay_lem st h e k = rw (e, k)

  -- Where it does, `update` is called in their place, if `exit` is set.
  pub calls_of_stay :
      (ev : Event H E) (tr : Transition H E S) (st nx : State H S) (h : H)
      {f : S × String → Callback H} {u : Callback H}
      → st.exit ≡ some f
      → st.update ≡ some u
      → calls same_e same_s true (ev, tr, st, nx) h
        ≡ run_all (tr.check ∷ ev.process ∷ some u ∷ tr.complete ∷ []) h
  unfolding calls
  calls_of_stay ev tr st nx h e k =
      rw (fun_ext (λ h. stay_lem st h e k))
        (simp (run_all-cons, run_all-cons_fun, >>_assoc, >>_nil))

  trigger-err :
      (e : E) (m : Efsm H E S) {rc : ℤ}
      → targets same_e same_s e m ≡ err rc
      → trigger same_e same_s e m ≡ (returned rc, m)
  unfolding trigger
  trigger-err e m h = ap (λ r. trigger_on same_e same_s r m) h

  pub trigger-ok :
      (e : E) (m : Efsm H E S) {ev : Event H E} {tr : Transition H E S} {st nx : State H S}
      → Finds e m ev tr st nx
      → trigger same_e same_s e m
        ≡ settle same_e same_s tr.to_state m
            (calls same_e same_s (decide (same_s tr.to_state m.state)) (ev, tr, st, nx) m.host)
  unfolding trigger
  trigger-ok e m f = ap (λ r. trigger_on same_e same_s r m) (targets-Finds e m f)

  abbrev pub Found : E → Efsm H E S → Type 0
  Found e m =
      (ev : Event H E) × (tr : Transition H E S) × (st : State H S) × (nx : State H S) × Finds e m
        ev tr st nx

  Result-cases :
      (e : E) (m : Efsm H E S) → ((rc : ℤ) × (targets same_e same_s e m ≡ err rc)) ⊎ Found e m
  Result-cases e m = go (targets same_e same_s e m) refl
    where
      go :
          (r : Result (Event H E × Transition H E S × State H S × State H S))
          → targets same_e same_s e m ≡ r
          → ((rc : ℤ) × (targets same_e same_s e m ≡ err rc)) ⊎ Found e m
      go (err rc) h = inl (rc, h)
      go (ok (ev, tr, st, nx)) h = inr (ev, tr, st, nx, targets-ok e m h)

  -- A trigger that returns success found the event, the transition and both states, and leaves the
  -- machine in the state that the transition leads to.
  pub trigger-success :
      (e : E) (m : Efsm H E S)
      → (trigger same_e same_s e m).0 ≡ returned success
      → (ev : Event H E) × (tr : Transition H E S) × (st : State H S) × (nx : State H S) × Finds e m
          ev tr st nx
        × ((trigger same_e same_s e m).1.state ≡ tr.to_state)
  trigger-success e m h = elim (Result-cases e m) [
    | inl (rc, k) ↦ absurd (targets-err e m k (ground (arith, trigger-err e m k)))
    | inr (ev, tr, st, nx, f) ↦ (
      ev,
      tr,
      st,
      nx,
      f,
      rw (trigger-ok e m f) ((settle_state tr.to_state m _).0 (rw (trigger-ok e m f) at h)),
    )
  ]

  -- A trigger never changes the three maps, and unless it returns success it does not change the state.
  pub trigger_failure_keeps :
      (e : E) (m : Efsm H E S)
      → SameMaps (trigger same_e same_s e m).1 m
        × ((trigger same_e same_s e m).0 ≢ returned success
            → (trigger same_e same_s e m).1.state ≡ m.state)
  trigger_failure_keeps e m = elim (Result-cases e m) [
    | inl (rc, k) ↦ rw (trigger-err e m k) ((refl, refl, refl), λ _. refl)
    | inr (ev, tr, st, nx, f) ↦
        rw (trigger-ok e m f) (settle_maps tr.to_state m _, (settle_state tr.to_state m _).1)
  ]
