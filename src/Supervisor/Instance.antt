-- ===== src/Supervisor/Instance.antt =====
-- What pre_supervisor_checks.py reads off the tags of its instance, and how it waits for them.
use Prim.Native.Char.{code}
use configuration.Base.{
  ℕ, zero, suc, ◌-◌, ◌*◌, Bool, ◌||◌, Option, none, some, List, [], ◌∷◌, ◌++◌, map, String, ◌==◌,
  string_eq, nat_eq, ltb, if◌then◌else◌, Result, ok, raised, type_error, other_error, Dict, lookup,
  ◌>>=◌ as ◌>>>=◌,
}
use configuration.Base.Script.{is_exception}

pub record Instance : Type 0 where
  pub id : String
  pub profile_arn : Option String
  pub tags : Dict String String

-- The environment, the deployment and the play.
abbrev pub Edp : Type 0
Edp = String × String × String

abbrev pub max_backoff : ℕ
max_backoff = 120

abbrev pub initial_backoff : ℕ
initial_backoff = 1

-- `text.endswith(part)`
abbrev pub ends_with : String → String → Bool
ends_with part String.[] = part == ""
ends_with part (String.◌∷◌ c s) = let rest = ends_with part s in String.◌∷◌ c s == part || rest

abbrev pub split_front : String → String × List String
split_front String.[] = (String.[], [])
split_front (String.◌∷◌ c s) =
    let (w, ws) = split_front s in
    if code c == 44 then (String.[], w ∷ ws) else (String.◌∷◌ c w, ws)

-- `text.split(",")`
abbrev pub split_commas : String → List String
split_commas s = let (w, ws) = split_front s in w ∷ ws

abbrev pub tag_of : Option String → Result String
tag_of none = raised other_error
tag_of (some value) = ok value

-- What the generator gives for one instance: its services, or an error.
abbrev pub services_tag : Option String → List (Result String)
services_tag none = raised other_error ∷ []
services_tag (some services) = map (λ service. ok service) (split_commas services)

unfoldable pub instance_services : String → List Instance → List (Result String)
instance_services instance_id [] = []
instance_services instance_id (i ∷ instances) =
    let rest = instance_services instance_id instances in
    if i.id == instance_id then services_tag (lookup "services" i.tags) ++ rest else rest

unfoldable pub services_for_instance : String → List (List Instance) → List (Result String)
services_for_instance instance_id [] = []
services_for_instance instance_id (instances ∷ reservations) =
    instance_services instance_id instances ++ services_for_instance instance_id reservations

abbrev pub edp_of : Dict String String → Result Edp
edp_of tags = tag_of (lookup "environment" tags) >>>= λ environment.
    tag_of (lookup "deployment" tags) >>>= λ deployment.
    tag_of (lookup "play" tags) >>>= λ play. ok (environment, deployment, play)

abbrev pub all_of : List (List Instance) → List Instance
all_of [] = []
all_of (instances ∷ reservations) = instances ++ all_of reservations

-- Without the instance, there is nothing to take apart.
abbrev pub edp_among : String → List Instance → Result Edp
edp_among instance_id [] = raised type_error
edp_among instance_id (i ∷ instances) =
    let rest = edp_among instance_id instances in
    if i.id == instance_id then edp_of i.tags else rest

unfoldable pub edp_for_instance : String → Result (List (List Instance)) → Result Edp
edp_for_instance instance_id answer =
    answer >>>= λ reservations. edp_among instance_id (all_of reservations)

-- What the loop ends with, if not by an error the tags or that there are none, and how long it has
-- slept after each attempt.
abbrev pub Waiting : Type 0
Waiting = Result (Option Edp) × List ℕ

abbrev pub slept : ℕ → Option Waiting → Option Waiting
slept backoff none = none
slept backoff (some (found, sleeps)) = some (found, backoff ∷ sleeps)

-- `except Exception` lets an exit and an interrupt through.
abbrev pub tried : Result Edp → ℕ → Option Waiting → Option Waiting
tried (ok edp) backoff rest = some (ok (some edp), [])
tried (raised e) backoff rest = if is_exception e then slept backoff rest else some (raised e, [])

-- The `while` loop with the seconds that it sleeps; `none` where the fuel does not last.
unfoldable pub wait_for_edp : (ℕ → Result Edp) → ℕ → ℕ → ℕ → ℕ → Option Waiting
wait_for_edp answers zero time_left backoff n = none
wait_for_edp answers (suc fuel) time_left backoff n =
    let rest = wait_for_edp answers fuel (time_left - backoff) (backoff * 2) (suc n) in
    if ltb 0 time_left then tried (answers n) backoff rest else some (ok none, [])
