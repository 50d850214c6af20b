-- ===== src/Model/Efsm/Registry.antt =====
-- The registration of events, states and transitions in model_efsm.h.
use comm_libs.Common.{
  ◌≡◌, ◌≢◌, refl, sym, false, none, some, arith, inl, inr, ap, Bool-cases, Option, subst,
}
use comm_libs.StdMap.{
  any_key, find, find-assign, find-erase, find-any_key, find-erase_ne, find-assign_some,
}
use mathlib.Core.Bool.{decide}
use mathlib.Core.Logic.{ite}
use comm_libs.Model.Efsm.{
  success, Event, State, Transition, Efsm, pair_discrete, add_event, add_state, add_transition,
  del_event, del_state, del_transition, get_state, get_transition, is_some, trigger, returned,
  efsm_state_enotexist, event_copy,
}

decide_same : {A : Type 0} (d : Dec A) → decide d ≡ false → ¬ A
unfolding decide
decide_same (yes p) h = λ _. cc
decide_same (no n) h = n

module _ {H E S : Type 0} (same_e : Discrete E) (same_s : Discrete S) where
  -- After `AddTransition` the transition is found at its own event and state, after `DelTransition`
  -- nothing is, and every other lookup answers as before.
  pub get_transition-add-del :
      (t : Transition H E S) (e : E) (s : S) (k : E) (l : S) (m : Efsm H E S)
      → (get_transition same_e same_s k l (add_transition same_e same_s t m).1
          ≡ ite
              (pair_discrete same_e same_s (t.event, t.state) (k, l))
              (some t)
              (get_transition same_e same_s k l m))
        × (get_transition same_e same_s k l (del_transition same_e same_s e s m).1
            ≡ ite
                (pair_discrete same_e same_s (e, s) (k, l))
                none
                (get_transition same_e same_s k l m))
  unfolding get_transition add_transition del_transition
  get_transition-add-del t e s k l m = (
    find-assign (pair_discrete same_e same_s) (k, l) (t.event, t.state) t m.trans_map,
    find-erase (pair_discrete same_e same_s) (k, l) (e, s) m.trans_map,
  )

  -- Every registered transition starts at a registered event and a registered state.
  abbrev pub IsBound : Efsm H E S → Type 0
  IsBound m =
      (e : E) (s : S) (t : Transition H E S)
      → find (pair_discrete same_e same_s) (e, s) m.trans_map ≡ some t
      → (find same_e e m.event_map ≢ none) × (find same_s s m.state_map ≢ none)

  del_event-IsBound : (e : E) (m : Efsm H E S) → IsBound m → IsBound (del_event same_e same_s e m).1
  unfolding del_event
  del_event-IsBound e m b = elim (Bool-cases (is_some (find same_e e m.event_map))) [
    | inr absent ↦ rw absent b
    | inl present ↦ elim (Bool-cases (any_key (λ k. decide (same_e k.0 e)) m.trans_map)) [
      | inl used ↦ rw (present, used) b
      | inr unused ↦
          rw (present, unused)
            (λ j s t h. (
              find-erase_ne same_e e j m.event_map
                  (λ q.
                    decide_same (same_e j e)
                      (find-any_key (pair_discrete same_e same_s) (λ k. decide (same_e k.0 e))
                        (j, s) t m.trans_map h unused)
                      (sym q))
                  (b j s t h).0,
              (b j s t h).1,
            ))
    ]
  ]

  del_state-IsBound : (s : S) (m : Efsm H E S) → IsBound m → IsBound (del_state same_e same_s s m).1
  unfolding del_state
  del_state-IsBound s m b = elim (Bool-cases (is_some (find same_s s m.state_map))) [
    | inr absent ↦ rw absent b
    | inl present ↦ elim (Bool-cases (any_key (λ k. decide (same_s k.1 s)) m.trans_map)) [
      | inl used ↦ rw (present, used) b
      | inr unused ↦
          rw (present, unused)
            (λ j l t h. (
              (b j l t h).0,
              find-erase_ne same_s s l m.state_map
                  (λ q.
                    decide_same (same_s l s)
                      (find-any_key (pair_discrete same_e same_s) (λ k. decide (same_s k.1 s))
                        (j, l) t m.trans_map h unused)
                      (sym q))
                  (b j l t h).1,
            ))
    ]
  ]

  del_transition-IsBound :
      (e : E) (s : S) (m : Efsm H E S) → IsBound m → IsBound (del_transition same_e same_s e s m).1
  unfolding del_transition
  del_transition-IsBound e s m b j l t h =
      b j l t (ground (arith, find-erase (pair_discrete same_e same_s) (j, l) (e, s) m.trans_map))

  -- Each deletion and each addition of an event or a state keeps every registered transition at a
  -- registered event and state; so does adding a transition at a registered event and state.
  pub registry-IsBound :
      (e : E) (s : S) (ev : Event H E) (st : State H S) (tr : Transition H E S) (m : Efsm H E S)
      → IsBound m
      → IsBound (del_event same_e same_s e m).1
        × IsBound (del_state same_e same_s s m).1
        × IsBound (del_transition same_e same_s e s m).1
        × IsBound (add_event same_e same_s ev m).1
        × IsBound (add_state same_e same_s st m).1
        × (find same_e tr.event m.event_map ≢ none
            → find same_s tr.state m.state_map ≢ none
            → IsBound (add_transition same_e same_s tr m).1)
  unfolding add_event add_state add_transition
  registry-IsBound e s ev st tr m b = (
    del_event-IsBound e m b,
    del_state-IsBound s m b,
    del_transition-IsBound e s m b,
    λ j l t h. (
      find-assign_some same_e ev.event j (event_copy ev (find same_e ev.event m.event_map))
          m.event_map (b j l t h).0,
      (b j l t h).1,
    ),
    λ j l t h. ((b j l t h).0, find-assign_some same_s st.state l st m.state_map (b j l t h).1),
    λ he hs j l t h. elim (pair_discrete same_e same_s (tr.event, tr.state) (j, l)) [
      | yes q ↦ (
        subst (λ k. find same_e k m.event_map ≢ none) (ap (λ p. p.0) q) he,
        subst (λ k. find same_s k m.state_map ≢ none) (ap (λ p. p.1) q) hs,
      )
      | no n ↦ b j l t (
          ground (
            arith,
            find-assign (pair_discrete same_e same_s) (j, l) (tr.event, tr.state) tr m.trans_map,
          ))
    ],
  )

  -- No registered event has a `process` function.
  abbrev pub HasNoProcess : Efsm H E S → Type 0
  HasNoProcess m =
      (e : E) (ev : Event H E) → find same_e e m.event_map ≡ some ev → ev.process ≡ none

  copy_process :
      (ev : Event H E) (m : Efsm H E S)
      → HasNoProcess m
      → (event_copy ev (find same_e ev.event m.event_map)).process ≡ none
  copy_process ev m h = go (find same_e ev.event m.event_map) refl
    where
      go :
          (o : Option (Event H E))
          → find same_e ev.event m.event_map ≡ o
          → (event_copy ev o).process ≡ none
      go none q = refl
      go (some was) q = h ev.event was q

  -- `AddEvent` succeeds, but stores a copy without the `process` function: in a machine whose events
  -- have none it never brings one in, whatever the event it is given has.
  pub add_event-HasNoProcess :
      (ev : Event H E) (m : Efsm H E S)
      → HasNoProcess m
      → ((add_event same_e same_s ev m).0 ≡ success) × HasNoProcess (add_event same_e same_s ev m).1
  unfolding add_event
  add_event-HasNoProcess ev m h = (
    refl,
    λ k old found. ground (
      arith,
      copy_process ev m h,
      h k old,
      find-assign same_e k ev.event (event_copy ev (find same_e ev.event m.event_map)) m.event_map,
      found,
    ),
  )

  -- `DelState` does not look at the targets of transitions: it deletes a registered state at which
  -- no transition starts, and a trigger of a transition from the current state that ends there, of
  -- a registered event, then fails.
  pub del_state-breaks_target :
      (e : E) (s : S) (m : Efsm H E S) (tr : Transition H E S)
      → get_transition same_e same_s e m.state m ≡ some tr
      → tr.to_state ≡ s
      → find same_e e m.event_map ≢ none
      → get_state same_e same_s s m ≢ none
      → get_state same_e same_s m.state m ≢ none
      → any_key (λ k. decide (same_s k.1 s)) m.trans_map ≡ false
      → ((del_state same_e same_s s m).0 ≡ success)
        × ((trigger same_e same_s e (del_state same_e same_s s m).1).0
            ≡ returned efsm_state_enotexist)
  unfolding del_state get_transition get_state trigger
  del_state-breaks_target e s m tr t q he hs hm u = ground (
    arith,
    find-any_key (pair_discrete same_e same_s) (λ k. decide (same_s k.1 s)) (e, m.state) tr
        m.trans_map t u,
    find-erase same_s tr.to_state s m.state_map,
    find-erase same_s m.state s m.state_map,
  )
