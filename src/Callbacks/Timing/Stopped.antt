-- ===== src/Callbacks/Timing/Stopped.antt =====
-- Which tasks of the plugin's dictionary have been stopped, and what their times add up to.
use configuration.Base.{
  ℕ, ◌+◌, ◌-◌, ◌≤◌, false, Option, none, some, ◌≡◌, refl, List, [], ◌∷◌, String, ◌==◌, string_eq,
  beq_refl, ok, Dict, lookup, put, All, arith, Bool-cases, inl, inr,
}
use configuration.Callbacks.Timing.Stamp.{
  ℤ, pos, minus, Timestamp, started, stop, duration, durations,
}

-- It was stopped, and not before it was started.
abbrev pub IsStopped : Timestamp → Type 0
IsStopped t = (e : ℕ) × (t.end ≡ some e) × (t.start ≤ e)

abbrev pub AllStopped : Dict String Timestamp → Type 0
AllStopped = All (λ ((name, t) : String × Timestamp). IsStopped t)

-- All were stopped but one that was started at a given time.
pub data OneRuns (name : String) (start : ℕ) : Dict String Timestamp → Type 0 where
  runs :
      {t : Timestamp} {d : Dict String Timestamp}
      → t.start ≡ start
      → AllStopped d
      → OneRuns name start ((name, t) ∷ d)
  later :
      {other : String} {t : Timestamp} {d : Dict String Timestamp}
      → (other == name) ≡ false
      → IsStopped t
      → OneRuns name start d
      → OneRuns name start ((other, t) ∷ d)

abbrev pub cost_to : ℕ → Option ℕ → ℕ
cost_to start none = 0
cost_to start (some end) = end - start

abbrev pub cost : Timestamp → ℕ
cost t = cost_to t.start t.end

-- What the stopped tasks took together.
abbrev pub spent : Dict String Timestamp → ℕ
spent [] = 0
spent ((name, t) ∷ d) = cost t + spent d

pub spent-put :
    (name : String) (t : Timestamp) (d : Dict String Timestamp)
    → spent (put name t d) ≤ cost t + spent d
spent-put name t [] = omega arith
spent-put name t ((other, u) ∷ d) = ground (arith, spent-put name t d)

-- A task that starts is the only one that runs, also if its name was used before.
pub put-OneRuns :
    (name : String) (now : ℕ) (d : Dict String Timestamp)
    → AllStopped d
    → OneRuns name now (put name (started now) d)
put-OneRuns name now [] h = runs refl tt
put-OneRuns name now ((other, u) ∷ d) h = elim (Bool-cases (other == name)) [
  | inl same ↦ rw same (runs refl h.1)
  | inr differs ↦ rw differs (later differs h.0 (put-OneRuns name now d h.1))
]

-- The task that runs is found, and with it all are stopped.
pub lookup-OneRuns :
    (name : String) (start now : ℕ) (d : Dict String Timestamp)
    → start ≤ now
    → OneRuns name start d
    → (t : Timestamp) × (lookup name d ≡ some t)
      × (t.start ≡ start)
      × AllStopped (put name (stop now t) d)
lookup-OneRuns name start now [] h o = elim o [ ]
lookup-OneRuns name start now ((other, u) ∷ d) h (runs e rest) =
    rw beq_refl (u, refl, e, ((now, refl, omega (arith, e, h)), rest))
lookup-OneRuns name start now ((other, u) ∷ d) h (later differs stopped o) =
    let (t, found, e, rest) = lookup-OneRuns name start now d h o in
    rw differs (t, found, e, (stopped, rest))

-- Durations none of which is negative, and their sum.
pub data AddsUpTo : ℕ → List (String × ℤ) → Type 0 where
  nothing : AddsUpTo 0 []
  and_then :
      {name : String} {total : ℕ} {timed : List (String × ℤ)} (d : ℕ)
      → AddsUpTo total timed
      → AddsUpTo (d + total) ((name, pos d) ∷ timed)

pub minus-le : (a b : ℕ) → b ≤ a → minus a b ≡ pos (a - b)
minus-le a b h = ground arith

pub duration-IsStopped : (t : Timestamp) → IsStopped t → duration t ≡ ok (pos (cost t))
duration-IsStopped t (e, ended, h) = rw ended (rw (minus-le e t.start h) refl)

pub durations-AllStopped :
    (d : Dict String Timestamp)
    → AllStopped d
    → (timed : List (String × ℤ)) × (durations d ≡ ok timed) × AddsUpTo (spent d) timed
unfolding durations
durations-AllStopped [] h = ([], refl, nothing)
durations-AllStopped ((name, t) ∷ d) (h, hs) =
    let (timed, rest, adds) = durations-AllStopped d hs in
    ((name, pos (cost t)) ∷ timed, rw (duration-IsStopped t h, rest) refl, and_then (cost t) adds)
