-- ===== src/Parser/Json/Locking.antt =====
-- The lock of libparser/parser_json.cc, in the hands of one thread, through a list of events.
use comm_libs.Common.{Option, none, some, List, [], ◌∷◌, ◌++◌, ◌≡◌, inl, inr, Option-cases, arith}
use comm_libs.Parser.Json.{Event, read_locked, write_locked, refused, unlocked, looked, changed}

pub data Hold : Type 0 where
  free reading writing : Hold

-- A lock that one thread uses. A change without the lock for writing is no step.
abbrev pub lock_step : Hold → Event → Option Hold
lock_step free read_locked = some reading
lock_step free write_locked = some writing
lock_step free refused = some free
lock_step reading unlocked = some free
lock_step writing unlocked = some free
lock_step writing changed = some writing
lock_step h looked = some h
lock_step _ _ = none

-- The same, where reading without the lock is no step either.
abbrev pub strict_step : Hold → Event → Option Hold
strict_step free looked = none
strict_step h e = lock_step h e

abbrev pub replay : (Hold → Event → Option Hold) → Hold → List Event → Option Hold
replay step h [] = some h
replay step h (e ∷ es) = elim (step h e) [ none ↦ none | some h' ↦ replay step h' es ]

pub replay-append :
    (step : Hold → Event → Option Hold) (h : Hold) {k : Hold} (es fs : List Event)
    → replay step h es ≡ some k
    → replay step h (es ++ fs) ≡ replay step k fs
replay-append step h [] fs p = ground arith
replay-append step h (e ∷ es) fs p = elim (Option-cases (step h e)) [
  | inl z ↦ cc (rw (z, replay) at p)
  | inr (h', z) ↦ rw (z, replay) (replay-append step h' es fs (rw (z, replay) at p))
]
