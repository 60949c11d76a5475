-- ===== src/Sharding/Tests.antt =====
-- The theorems on the shards at a run of `pack_shards` over four images.
use mathlib.Core.List.{Perm, flatten}
use mathlib.Core.List.Perm
use configuration.Base.{
  ℕ, ◌+◌, ◌≤◌, ◌≡◌, refl, some, List, [], ◌∷◌, String, arith, contains, select, Dict, ok, length,
  All, string_eq,
}
use configuration.Sharding.Pack.{Image, Shard, pack_shards}
use configuration.Sharding.Pack.Sums.{packed, HasItsSum, pack_shards_partition}
use configuration.Sharding.Pack.Balance.{IsAtMost, pack_shards_approximates}
use configuration.Sharding.Images.{config, names, read_input, balance_containers}
use configuration.Sharding.Images.Coverage.{line_words, balance_containers_lem}

abbrev four : List Image
four = ("a", 1) ∷ ("b", 5) ∷ ("c", 3) ∷ ("d", 3) ∷ []

abbrev first : Shard
first = record { images = ("b", 5) ∷ ("a", 1) ∷ []; sum = 6 }

abbrev second : Shard
second = record { images = ("c", 3) ∷ ("d", 3) ∷ []; sum = 6 }

abbrev two : List Shard
two = first ∷ second ∷ []

run_four : pack_shards four 2 ≡ ok two
unfolding pack_shards
run_four = refl

light : All (IsAtMost 5) four
light = (omega arith, (omega arith, (omega arith, (omega arith, tt))))

pack_shards_partition_example : Perm (packed two) four × All HasItsSum two × (length two ≡ 2)
pack_shards_partition_example = pack_shards_partition four 2 two run_four

abbrev other : List Shard
other =
    record { images = ("a", 1) ∷ ("b", 5) ∷ []; sum = 6 }
    ∷ record { images = ("c", 3) ∷ ("d", 3) ∷ []; sum = 6 }
    ∷ []

pack_shards_approximates_example : 6 ≤ 6 + 5
pack_shards_approximates_example =
    pack_shards_approximates 5 6 four 2 two other light run_four Perm.rfl (refl, (refl, tt)) refl
      (omega arith, (omega arith, tt)) 1 second refl

abbrev weights : List (Dict String ℕ)
weights = (("a", 2) ∷ []) ∷ (("b", 3) ∷ []) ∷ (("c", 1) ∷ []) ∷ []

abbrev input : List String
input = " [a b  c]" ∷ []

run_balance : balance_containers (config (some weights)) input 2 ≡ ok ("b" ∷ "a c" ∷ [])
unfolding balance_containers pack_shards
run_balance = refl

balance_containers_example :
    Perm
      (line_words ("b" ∷ "a c" ∷ []))
      (select (contains (read_input input)) (names (flatten weights)))
    × (length {A = String} ("b" ∷ "a c" ∷ []) ≡ 2)
balance_containers_example = balance_containers_lem weights input 2 ("b" ∷ "a c" ∷ []) run_balance
