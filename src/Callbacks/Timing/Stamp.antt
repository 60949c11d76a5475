-- ===== src/Callbacks/Timing/Stamp.antt =====
-- `Timestamp` of playbooks/callback_plugins/task_timing.py. A time is a number of microseconds, and a
-- `timedelta` a whole number of them, of either sign.
use configuration.Base.{
  ℕ, suc, ◌-◌, Bool, true, false, Option, none, some, List, [], ◌∷◌, String, leb, if◌then◌else◌,
  Result, ok, raised, type_error, Dict, ◌>>=◌,
}

pub data ℤ : Type 0 where
  pos : ℕ → ℤ
  -- `negsuc n` is one below the negative of `n`.
  negsuc : ℕ → ℤ

abbrev pub minus : ℕ → ℕ → ℤ
minus a b = if leb b a then pos (a - b) else negsuc (b - suc a)

-- `<=` of Python
abbrev pub le : ℤ → ℤ → Bool
le (pos a) (pos b) = leb a b
le (pos a) (negsuc b) = false
le (negsuc a) (pos b) = true
le (negsuc a) (negsuc b) = leb b a

pub record Timestamp : Type 0 where
  pub start : ℕ
  pub end : Option ℕ

-- `Timestamp()`
abbrev pub started : ℕ → Timestamp
started now = record { start = now; end = none }

abbrev pub stop : ℕ → Timestamp → Timestamp
stop now self = record self { end = some now }

abbrev elapsed : ℕ → Option ℕ → Result ℤ
elapsed start none = raised type_error
elapsed start (some end) = ok (minus end start)

-- `end - start` is a `TypeError` for a timestamp that was not stopped.
abbrev pub duration : Timestamp → Result ℤ
duration self = elapsed self.start self.end

-- The tasks with their durations, as `sorted` asks for them.
unfoldable pub durations : Dict String Timestamp → Result (List (String × ℤ))
durations [] = ok []
durations ((name, timestamp) ∷ results) =
    duration timestamp >>= λ d. durations results >>= λ rest. ok ((name, d) ∷ rest)

-- `sorted(…, key=duration, reverse=True)`: longer tasks first, equal ones in their old order.
abbrev pub insert_task : String × ℤ → List (String × ℤ) → List (String × ℤ)
insert_task x [] = x ∷ []
insert_task x (y ∷ ys) = let rest = insert_task x ys in if le y.1 x.1 then x ∷ y ∷ ys else y ∷ rest

unfoldable pub sort_tasks : List (String × ℤ) → List (String × ℤ)
sort_tasks [] = []
sort_tasks (x ∷ xs) = insert_task x (sort_tasks xs)
