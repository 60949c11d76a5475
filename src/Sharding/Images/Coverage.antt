-- ===== src/Sharding/Images/Coverage.antt =====
-- What passing the coverage check means, and what the printed lines hold.
use mathlib.Core.List.{flatten, Perm, map-append}
use mathlib.Core.List.Perm
use configuration.Base.{
  ℕ, ◌≡◌, refl, ◌↔◌, ◌⊎◌, inl, inr, Bool, true, false, not, ◌&&◌, some, List, [], ◌∷◌, ◌++◌, map,
  String, arith, Dict, contains, select, All, split, IsWord, split-join, split-All, string_eq,
  >>=-eq-ok, ok, raised, system_exit, length, contains-select, contains-update, contains-perm,
  All-contains, contains→All, All-append, All-split, length-map, strip_by, is_space, beq_refl,
}
use configuration.Sharding.Pack.{Image, Shard, pack_shards}
use configuration.Sharding.Pack.Sums.{packed, pack_shards_partition}
use configuration.Sharding.Images.{
  config, names, uncovered, exit_if_any, is_bracket, line_items, check_coverage, read_input,
  shard_line, balance_containers, check_dockerfile_coverage,
}

-- The names of the images that are kept are the names that are kept.
names-select :
    (test : String → Bool) (xs : List Image)
    → names (select (λ (x : Image). test x.0) xs) ≡ select test (names xs)
names-select test [] = refl
names-select test (x ∷ xs) = ground (arith, names-select test xs)

nil_of_contains : (xs : List String) → ((i : String) → contains xs i ≡ false) → xs ≡ []
nil_of_contains [] h = refl
nil_of_contains (x ∷ xs) h = ground (arith, h x, beq_refl x)

contains-uncovered :
    (images : List String) (used : List Image) (i : String)
    → contains (uncovered images used) i ≡ (contains images i && not (contains (names used) i))
contains-uncovered images used i = simp (contains-select, contains-update)

nil_of_exit_if_any : (xs : List String) → exit_if_any xs ≡ ok tt → xs ≡ []
nil_of_exit_if_any [] h = refl
nil_of_exit_if_any (x ∷ xs) h = cc

exit_if_any_cases :
    (xs : List String) → (exit_if_any xs ≡ ok tt) ⊎ (exit_if_any xs ≡ raised (system_exit 1))
exit_if_any_cases [] = inl refl
exit_if_any_cases (x ∷ xs) = inr refl

check_coverage_iff :
    (images : List String) (used : List Image)
    → (check_coverage images used ≡ ok tt)
      ↔ ((i : String) → contains images i ≡ true → contains (names used) i ≡ true)
unfolding check_coverage
check_coverage_iff images used = (
  λ h i m.
      let none_left = nil_of_exit_if_any (uncovered images used) h in
      let absent : contains (uncovered images used) i ≡ false = rw none_left in
      ground (arith, absent, contains-uncovered images used i),
  λ covers.
      let none_left =
        nil_of_contains (uncovered images used)
          (λ i. ground (arith, covers i, contains-uncovered images used i)) in
      rw none_left,
)

contains-used :
    (images : List String) (weighted : List Image) (i : String)
    → contains (names (select (λ (x : Image). contains images x.0) weighted)) i
      ≡ (contains (names weighted) i && contains images i)
contains-used images weighted i =
    rw (names-select (contains images) weighted)
      (contains-select (contains images) (names weighted) i)

-- With a readable list of weights, the coverage check passes exactly when every requested image
-- has a weight, and otherwise ends the process with status 1.
pub check_dockerfile_coverage_iff :
    (weights : List (Dict String ℕ)) (argument : String)
    → ((check_dockerfile_coverage (config (some weights)) argument ≡ ok tt) ↔ (
        (i : String)
        → contains (split argument) i ≡ true
        → contains (names (flatten weights)) i ≡ true))
      × ((check_dockerfile_coverage (config (some weights)) argument ≡ ok tt)
          ⊎ (check_dockerfile_coverage (config (some weights)) argument ≡ raised (system_exit 1)))
unfolding check_dockerfile_coverage
check_dockerfile_coverage_iff weights argument =
    let images = split argument in
    let used = select (λ (x : Image). contains images x.0) (flatten weights) in
    let covered = check_coverage_iff images used in
    let has = contains-used images (flatten weights) in
    (
      (
        λ h i m. ground (arith, covered.0 h i m, has i),
        λ all. covered.1 (λ i m. ground (arith, all i m, has i)),
      ),
      unfold check_coverage in exit_if_any_cases (uncovered images used),
    )

-- The words of all lines.
abbrev pub line_words : List String → List String
line_words [] = []
line_words (line ∷ lines) = split line ++ line_words lines

read_input-All : (lines : List String) → All IsWord (read_input lines)
unfolding read_input
read_input-All [] = tt
read_input-All (line ∷ lines) =
    All-append IsWord (line_items line) (read_input lines)
      (split-All (strip_by is_bracket (strip_by is_space line))) (read_input-All lines)

-- Splitting the printed lines gives the names in the shards, if these are words.
line_words-shard_line :
    (shards : List Shard)
    → All IsWord (names (packed shards))
    → line_words (map shard_line shards) ≡ names (packed shards)
line_words-shard_line [] h = refl
line_words-shard_line (s ∷ rest) h =
    let (here, there) =
      All-split IsWord (names s.images) (names (packed rest)) (rw map-append at h) in
    rw (split-join (names s.images) here, line_words-shard_line rest there, map-append)

-- With a readable list of weights and a shard at least, `balance_containers` prints a line for each
-- shard, and its lines together name every image that was read and has a weight, as often as it has
-- one, and nothing else.
pub balance_containers_lem :
    (weights : List (Dict String ℕ)) (lines : List String) (n : ℕ) (out : List String)
    → balance_containers (config (some weights)) lines n ≡ ok out
    → Perm (line_words out) (select (contains (read_input lines)) (names (flatten weights)))
      × (length out ≡ n)
unfolding balance_containers
balance_containers_lem weights lines n out h =
    let images = read_input lines in
    let used = select (λ (x : Image). contains images x.0) (flatten weights) in
    let (shards, packs, prints) =
      >>=-eq-ok (pack_shards used n) (λ shards. ok (map shard_line shards)) h in
    let (placed, own, size) = pack_shards_partition used n shards packs in
    let same : Perm (names (packed shards)) (names used) = Perm.map (λ (x : Image). x.0) placed in
    let words : All IsWord (names (packed shards)) =
      All-contains IsWord (names (packed shards)) (λ i m.
        contains→All IsWord images i (read_input-All lines)
          (ground (arith, contains-perm i same, contains-used images (flatten weights) i))) in
    let printed : map shard_line shards ≡ out = cc in
    (
      rw
          (
            ← printed,
            line_words-shard_line shards words,
            ← names-select (contains images) (flatten weights),
          )
          same,
      rw (← printed, length-map shards shard_line) size,
    )
