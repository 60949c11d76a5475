-- ===== src/Sharding/Pack.antt =====
-- `pack_shards` of util/balancecontainers.py.
mod Loop
pub mod Sums
pub mod Balance
use configuration.Base.{
  ℕ, zero, suc, ◌+◌, ◌≡◌, refl, Option, none, some, List, [], ◌∷◌, ◌++◌, String, ltb, leb,
  if◌then◌else◌, Result, ok, raised, value_error,
}

-- An image and its weight.
abbrev pub Image : Type 0
Image = String × ℕ

pub record Shard : Type 0 where
  pub images : List Image
  pub sum : ℕ

-- `sorted(…, key=weight, reverse=True)`: heavier images first, equal ones in their old order.
abbrev insert_image : Image → List Image → List Image
insert_image x [] = x ∷ []
insert_image x (y ∷ ys) = if leb y.1 x.1 then x ∷ y ∷ ys else y ∷ insert_image x ys

unfoldable pub sort_images : List Image → List Image
sort_images [] = []
sort_images (x ∷ xs) = insert_image x (sort_images xs)

-- `{"images": [], "sum": 0}`, for each shard
abbrev pub empty_shards : ℕ → List Shard
empty_shards zero = []
empty_shards (suc n) = record { images = []; sum = 0 } ∷ empty_shards n

-- Of a shard and the least one behind it, if any, the first with the least sum.
abbrev pub lesser : Shard → Option (ℕ × ℕ) → ℕ × ℕ
lesser s none = (0, s.sum)
lesser s (some (i, least)) = if ltb least s.sum then (suc i, least) else (0, s.sum)

-- `min(shards, key=sum)`: the position and the sum of the first of the shards with the least sum.
unfoldable pub min_shard : List Shard → Option (ℕ × ℕ)
min_shard [] = none
min_shard (s ∷ rest) = some (lesser s (min_shard rest))

-- `shard["images"].append(image); shard["sum"] += image[1]`
abbrev pub add_image : Image → Shard → Shard
add_image image s = record { images = s.images ++ image ∷ []; sum = s.sum + image.1 }

-- The shard at a position is changed in place.
abbrev pub update_at : List Shard → ℕ → (Shard → Shard) → List Shard
update_at [] i f = []
update_at (s ∷ rest) zero f = f s ∷ rest
update_at (s ∷ rest) (suc i) f = s ∷ update_at rest i f

-- The loop over the sorted images. `min` of no shards is a `ValueError`.
unfoldable pub pack_images : List Image → List Shard → Result (List Shard)
unfolding min_shard
pack_images [] shards = ok shards
pack_images (image ∷ rest) shards = elim (min_shard shards) [
  | none ↦ raised value_error
  | some (i, least) ↦ pack_images rest (update_at shards i (add_image image))
]

unfoldable pub pack_shards : List Image → ℕ → Result (List Shard)
unfolding sort_images pack_images
pack_shards used_images num_shards = pack_images (sort_images used_images) (empty_shards num_shards)

test_pack :
    pack_shards (("a", 1) ∷ ("b", 5) ∷ ("c", 3) ∷ ("d", 3) ∷ []) 2
    ≡ ok (
        record { images = ("b", 5) ∷ ("a", 1) ∷ []; sum = 6 }
        ∷ record { images = ("c", 3) ∷ ("d", 3) ∷ []; sum = 6 }
        ∷ [])
unfolding pack_shards
test_pack = refl
