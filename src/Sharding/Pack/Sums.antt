-- ===== src/Sharding/Pack/Sums.antt =====
-- The number of shards, their sums and the images that they hold, after `pack_shards`.
use configuration.Base.{
  ℕ, zero, suc, ◌+◌, ◌<◌, ◌≡◌, refl, ◌∙◌, List, [], ◌∷◌, ◌++◌, arith, length, All, ok, raised,
  value_error, leb, Bool-cases, inl, inr,
}
use mathlib.Core.List.{Perm, append_assoc, perm_middle, append-nil}
use mathlib.Core.List.Perm
use configuration.Sharding.Pack.{
  Image, Shard, insert_image, sort_images, lesser, empty_shards, min_shard, add_image, update_at,
  pack_images, pack_shards,
}
use configuration.Sharding.Pack.Loop.{IsLeast, length-update_at, pack_images_ind}

-- The images of all shards, and a list's weights added up.
abbrev pub packed : List Shard → List Image
packed [] = []
packed (s ∷ rest) = s.images ++ packed rest

abbrev pub weight : List Image → ℕ
weight [] = 0
weight (x ∷ xs) = x.1 + weight xs

abbrev pub HasItsSum : Shard → Type 0
HasItsSum s = s.sum ≡ weight s.images

insert_image-perm : (x : Image) (ys : List Image) → Perm (insert_image x ys) (x ∷ ys)
insert_image-perm x [] = Perm.rfl
insert_image-perm x (y ∷ ys) = elim (Bool-cases (leb y.1 x.1)) [
  | inl front ↦ rw front Perm.rfl
  | inr behind ↦ rw behind (Perm.trans (Perm.cons y (insert_image-perm x ys)) (Perm.swap x y ys))
]

pub sort_images-perm : (xs : List Image) → Perm (sort_images xs) xs
unfolding sort_images
sort_images-perm [] = Perm.rfl
sort_images-perm (x ∷ xs) =
    Perm.trans (insert_image-perm x (sort_images xs)) (Perm.cons x (sort_images-perm xs))

pub weight-append : (xs ys : List Image) → weight (xs ++ ys) ≡ weight xs + weight ys
weight-append [] ys = omega arith
weight-append (x ∷ xs) ys = omega (arith, weight-append xs ys)

-- Appending an image to one shard adds it to the images of all.
packed-update_at :
    (x : Image) (shards : List Shard) (i : ℕ)
    → i < length shards
    → Perm (packed (update_at shards i (add_image x))) (x ∷ packed shards)
packed-update_at x [] i h = absurd (omega arith)
packed-update_at x (s ∷ rest) zero h = rw append_assoc (perm_middle s.images (packed rest))
packed-update_at x (s ∷ rest) (suc i) h =
    Perm.trans (Perm.append_left s.images (packed-update_at x rest i (omega arith)))
      (perm_middle s.images (packed rest))

packed-empty_shards : (n : ℕ) → packed (empty_shards n) ≡ []
packed-empty_shards zero = refl
packed-empty_shards (suc n) = packed-empty_shards n

length-empty_shards : (n : ℕ) → length (empty_shards n) ≡ n
length-empty_shards zero = refl
length-empty_shards (suc n) = omega (arith, length-empty_shards n)

HasItsSum-update_at :
    (x : Image) (shards : List Shard) (i : ℕ)
    → All HasItsSum shards
    → All HasItsSum (update_at shards i (add_image x))
HasItsSum-update_at x [] i h = tt
HasItsSum-update_at x (s ∷ rest) zero h = (omega (arith, weight-append s.images (x ∷ [])), h.1)
HasItsSum-update_at x (s ∷ rest) (suc i) h = (h.0, HasItsSum-update_at x rest i h.1)

HasItsSum-empty_shards : (n : ℕ) → All HasItsSum (empty_shards n)
HasItsSum-empty_shards zero = tt
HasItsSum-empty_shards (suc n) = (refl, HasItsSum-empty_shards n)

-- What the loop keeps, with `given` the images at its start.
record IsPacking (given : List Image) (num_shards : ℕ) (todo : List Image) (shards : List Shard)
    : Type 0 where
  placed : Perm (todo ++ packed shards) given
  sums : All HasItsSum shards
  number : length shards ≡ num_shards

place_next :
    (given : List Image) (n : ℕ) (x : Image) (rest : List Image) (shards : List Shard)
    (found : ℕ × ℕ)
    → IsLeast shards found
    → IsPacking given n (x ∷ rest) shards
    → IsPacking given n rest (update_at shards found.0 (add_image x))
place_next given n x rest shards found least h = record {
  placed =
      Perm.trans (Perm.append_left rest (packed-update_at x shards found.0 least.in_range))
        (Perm.trans (perm_middle rest (packed shards)) h.placed);
  sums = HasItsSum-update_at x shards found.0 h.sums;
  number = length-update_at shards found.0 (add_image x) ∙ h.number;
}

start-IsPacking :
    (given : List Image) (n : ℕ) → IsPacking given n (sort_images given) (empty_shards n)
start-IsPacking given n = record {
  placed = rw (packed-empty_shards n, append-nil) (sort_images-perm given);
  sums = HasItsSum-empty_shards n;
  number = length-empty_shards n;
}

-- The shards that `pack_shards` returns are as many as were asked for, hold every image exactly as
-- often as it was given, and each carries the sum of the weights of its images.
pub pack_shards_partition :
    (used_images : List Image) (num_shards : ℕ) (shards : List Shard)
    → pack_shards used_images num_shards ≡ ok shards
    → Perm (packed shards) used_images × All HasItsSum shards × (length shards ≡ num_shards)
unfolding pack_shards
pack_shards_partition used n shards h =
    let p =
      pack_images_ind (IsPacking used n) (place_next used n) (sort_images used) (empty_shards n)
        shards (start-IsPacking used n) h in
    (p.placed, p.sums, p.number)

pack_images_total :
    (images : List Image) (shards : List Shard)
    → 0 < length shards
    → (final : List Shard) × (pack_images images shards ≡ ok final)
unfolding pack_images min_shard
pack_images_total [] shards h = (shards, refl)
pack_images_total (x ∷ xs) [] h = absurd (omega arith)
pack_images_total (x ∷ xs) (s ∷ rest) h =
    let i = (lesser s (min_shard rest)).0 in
    pack_images_total xs (update_at (s ∷ rest) i (add_image x))
      (omega (arith, length-update_at (s ∷ rest) i (add_image x)))

pack_images_none :
    (x : Image) (ys : List Image) → pack_images (insert_image x ys) [] ≡ raised value_error
unfolding pack_images
pack_images_none x [] = refl
pack_images_none x (y ∷ ys) = ground arith

-- With a shard, `pack_shards` returns. With images and no shard it raises a `ValueError`, that of
-- `min`. With no image the shards come back empty, also when there are none.
pub pack_shards_total :
    (x : Image) (xs : List Image) (n : ℕ)
    → ((shards : List Shard) × (pack_shards (x ∷ xs) (suc n) ≡ ok shards))
      × (pack_shards (x ∷ xs) 0 ≡ raised value_error)
      × (pack_shards [] n ≡ ok (empty_shards n))
unfolding pack_shards
pack_shards_total x xs n = (
  pack_images_total (sort_images (x ∷ xs)) (empty_shards (suc n)) (omega arith),
  pack_images_none x (sort_images xs),
  refl,
)
