-- ===== src/Base/Paths.antt =====
-- `os.path` on POSIX: `basename`, `dirname` and the first part of `splitext`.
use Prim.Native.Char.{Char, code}
use Prim.Native.String.{String, ◌++◌}
use mathlib.Core.Path.{◌≡◌, refl}
use mathlib.Core.Bool.{Bool, not, ◌&&◌, ◌||◌}
use text.Mathlib.Text.{starts_with}
use mathlib.Core.Option.{Option, none, some}
use configuration.Base.Tests.{if◌then◌else◌}
use configuration.Base.Classes.{nat_beq}
use configuration.Base.Text.{is_empty, rstrip_by}

abbrev is_slash : Char → Bool
is_slash c = nat_beq (code c) 47

abbrev is_dot : Char → Bool
is_dot c = nat_beq (code c) 46

-- The text up to the last slash, and what is behind it.
abbrev split_path : String → String × String
split_path String.[] = (String.[], String.[])
split_path (String.◌∷◌ c s) =
    let (head, tail) = split_path s in
    if is_empty head
    then (if is_slash c then (String.◌∷◌ c "", tail) else (String.[], String.◌∷◌ c tail))
    else (String.◌∷◌ c head, tail)

abbrev pub basename : String → String
basename s = (split_path s).1

-- Slashes at the end go, unless there are no other characters.
abbrev pub dirname : String → String
dirname s =
    let head = (split_path s).0 in
    let stripped = rstrip_by is_slash head in if is_empty stripped then head else stripped

abbrev before_last_dot : String → Option String
before_last_dot String.[] = none
before_last_dot (String.◌∷◌ c s) = elim (before_last_dot s) [
  | some front ↦ some (String.◌∷◌ c front)
  | none ↦ if is_dot c then some "" else none
]

abbrev or_whole : String → Option String → String
or_whole whole none = whole
or_whole whole (some front) = front

-- `splitext(name)[0]`, for a name without a slash. Dots in front begin no extension.
abbrev pub root_of : String → String
root_of String.[] = String.[]
root_of (String.◌∷◌ c s) =
    let rest = root_of s in
    if is_dot c
    then String.◌∷◌ c rest
    else or_whole (String.◌∷◌ c s) (before_last_dot (String.◌∷◌ c s))

test_basename : basename "/a/play.d/edx.east.yml" ≡ "edx.east.yml"
test_basename = refl

test_dirname : dirname "/a//b" ≡ "/a"
test_dirname = refl

test_root : root_of "..edx.east.yml" ≡ "..edx.east"
test_root = refl

test_root_hidden : root_of ".yml" ≡ ".yml"
test_root_hidden = refl

abbrev ends_with_slash : String → Bool
ends_with_slash s = not (is_empty s) && is_empty (basename s)

-- `os.path.join(directory, name)`
abbrev pub join_path : String → String → String
join_path directory name =
    if starts_with name "/"
    then name
    else if is_empty directory || ends_with_slash directory
    then directory ++ name
    else directory ++ "/" ++ name

test_join : join_path "/mnt" "etc" ≡ "/mnt/etc"
test_join = refl
