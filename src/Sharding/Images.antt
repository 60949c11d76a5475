-- ===== src/Sharding/Images.antt =====
-- The images that are built and their weights: util/docker_images.py, `check_coverage` of
-- util/check_dockerfile_coverage.py and the mains of the two scripts that read them.
pub mod Coverage
use mathlib.Core.List.{flatten}
use configuration.Base.{
  ℕ, ◌≡◌, refl, ◌↔◌, Bool, true, false, not, ◌&&◌, Option, none, some, List, [], ◌∷◌, ◌++◌, map,
  String, arith, Dict, contains, update, select, split, join, strip_by, is_space, ◌==◌, string_eq,
  ◌>>=◌, Result, ok, raised, name_error, type_error, system_exit, if◌then◌else◌, nat_beq, ◌||◌,
}
use Prim.Native.Char.{Char, code}
use configuration.Sharding.Pack.{Image, Shard, pack_shards}

-- What `yaml.load` makes of parsefiles_config.yml: an error, or the value under "weights" if any.
pub data ConfigFile : Type 0 where
  invalid_yaml : ConfigFile
  config : (weights : Option (List (Dict String ℕ))) → ConfigFile

abbrev pub names : List Image → List String
names xs = map (λ (x : Image). x.0) xs

-- docker_images.py binds no `LOGGER`, so its `except` clause ends in a `NameError`.
-- A missing "weights" is `None`, which cannot be iterated over.
unfoldable pub get_used_images : ConfigFile → List String → Result (List Image)
unfolding flatten
get_used_images invalid_yaml images = raised name_error
get_used_images (config none) images = raised type_error
get_used_images (config (some weights)) images =
    ok (select (λ (x : Image). contains images x.0) (flatten weights))

-- `set(images) - set([x[0] for x in used_images])`
abbrev pub uncovered : List String → List Image → List String
uncovered images used_images =
    select (λ i. not (contains (update [] (names used_images)) i)) (update [] images)

-- The error is logged and the process ended if an image is left.
abbrev pub exit_if_any : List String → Result (Unit {0})
exit_if_any [] = ok tt
exit_if_any (i ∷ rest) = raised (system_exit 1)

unfoldable pub check_coverage : List String → List Image → Result (Unit {0})
check_coverage images used_images = exit_if_any (uncovered images used_images)

abbrev is_bracket : Char → Bool
is_bracket c = nat_beq (code c) b'[' || nat_beq (code c) b']'

-- `line.strip().strip("[]").split()`
abbrev pub line_items : String → List String
line_items line = split (strip_by is_bracket (strip_by is_space line))

-- `read_input`, over the lines of standard input
unfoldable pub read_input : List String → List String
read_input [] = []
read_input (line ∷ lines) = line_items line ++ read_input lines

-- One line of the output: the names of a shard's images.
abbrev pub shard_line : Shard → String
shard_line s = join (names s.images)

-- The main of balancecontainers.py: the lines that it prints.
unfoldable pub balance_containers : ConfigFile → List String → ℕ → Result (List String)
unfolding get_used_images read_input
balance_containers file lines num_shards = do
  used_images ← get_used_images file (read_input lines)
  shards ← pack_shards used_images num_shards
  ok (map shard_line shards)

-- The main of check_dockerfile_coverage.py.
unfoldable pub check_dockerfile_coverage : ConfigFile → String → Result (Unit {0})
unfolding get_used_images check_coverage
check_dockerfile_coverage file argument = do
  used_images ← get_used_images file (split argument)
  check_coverage (split argument) used_images

test_balance :
    balance_containers
      (config (some ((("a", 2) ∷ []) ∷ (("b", 3) ∷ []) ∷ (("c", 1) ∷ []) ∷ [])))
      (" [a b  c]" ∷ [])
      2
    ≡ ok ("b" ∷ "a c" ∷ [])
unfolding balance_containers pack_shards
test_balance = refl

test_check :
    check_dockerfile_coverage (config (some ((("a", 2) ∷ []) ∷ []))) "a z" ≡ raised (system_exit 1)
unfolding check_dockerfile_coverage
test_check = refl
