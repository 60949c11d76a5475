-- ===== src/Sharding/Pack/Balance.antt =====
-- How evenly `pack_shards` spreads the weights.
use configuration.Base.{
  ℕ, zero, suc, ◌+◌, ◌*◌, ◌≤◌, ◌<◌, ◌≡◌, refl, sym, ◌∙◌, some, List, [], ◌∷◌, arith, length,
  get_elem?, All, ok, leb, Bool-cases, Option-cases, inl, inr, ◌⊎◌,
}
use mathlib.Core.Logic.{∥∥₁_elim}
use native.Mathlib.Nat.{ℕ_set}
use native.Mathlib.Decide.{dec_le}
use mathlib.Core.List.{Perm, Permᴰ}
use configuration.Sharding.Pack.{
  Image, Shard, insert_image, sort_images, empty_shards, add_image, update_at, pack_shards,
}
use configuration.Sharding.Pack.Loop.{IsLeast, get_elem?-update_at, pack_images_ind}
use configuration.Sharding.Pack.Sums.{
  packed, weight, weight-append, HasItsSum, pack_shards_partition,
}

abbrev pub IsAtMost : ℕ → Image → Type 0
IsAtMost limit x = x.1 ≤ limit

insert_image-All :
    (w : ℕ) (x : Image) (ys : List Image)
    → IsAtMost w x
    → All (IsAtMost w) ys
    → All (IsAtMost w) (insert_image x ys)
insert_image-All w x [] h hs = (h, tt)
insert_image-All w x (y ∷ ys) h hs = elim (Bool-cases (leb y.1 x.1)) [
  | inl front ↦ rw front (h, hs)
  | inr behind ↦ rw behind (hs.0, insert_image-All w x ys h hs.1)
]

sort_images-All :
    (w : ℕ) (xs : List Image) → All (IsAtMost w) xs → All (IsAtMost w) (sort_images xs)
unfolding sort_images
sort_images-All w [] h = tt
sort_images-All w (x ∷ xs) h = insert_image-All w x (sort_images xs) h.0 (sort_images-All w xs h.1)

-- A shard after the update was there before, and has grown only where the image went.
before_update :
    (x : Image) (shards : List Shard) (k i : ℕ) (s : Shard)
    → get_elem? (update_at shards k (add_image x)) i ≡ some s
    → (old : Shard) × (get_elem? shards i ≡ some old)
      × (((k ≡ i) × (s.sum ≡ old.sum + x.1)) ⊎ (s ≡ old))
before_update x shards k i s h = elim (Option-cases (get_elem? shards i)) [
  | inl absent ↦ absurd (ground (arith, get_elem?-update_at shards k i (add_image x)))
  | inr (old, e) ↦ (old, e, ground (arith, get_elem?-update_at shards k i (add_image x)))
]

-- No two sums are further apart than `w`, and no image that is still to be placed is heavier.
record IsBalanced (w : ℕ) (todo : List Image) (shards : List Shard) : Type 0 where
  light : All (IsAtMost w) todo
  near :
      (i j : ℕ) (s t : Shard)
      → get_elem? shards i ≡ some s
      → get_elem? shards j ≡ some t
      → s.sum ≤ t.sum + w

keep_balance :
    (w : ℕ) (x : Image) (rest : List Image) (shards : List Shard) (found : ℕ × ℕ)
    → IsLeast shards found
    → IsBalanced w (x ∷ rest) shards
    → IsBalanced w rest (update_at shards found.0 (add_image x))
keep_balance w x rest shards found least h = record { light = h.light.1; near = near }
  where
    near :
        (i j : ℕ) (s t : Shard)
        → get_elem? (update_at shards found.0 (add_image x)) i ≡ some s
        → get_elem? (update_at shards found.0 (add_image x)) j ≡ some t
        → s.sum ≤ t.sum + w
    near i j s t hs ht =
        let (s', es, cs) = before_update x shards found.0 i s hs in
        let (t', et, ct) = before_update x shards found.0 j t ht in
        ground (arith, h.near i j s' t' es et, least.at, least.lower j t' et, h.light.0)

start-IsBalanced :
    (w : ℕ) (images : List Image) (n : ℕ)
    → All (IsAtMost w) images
    → IsBalanced w (sort_images images) (empty_shards n)
start-IsBalanced w images n h = record {
  light = sort_images-All w images h;
  near = λ i j s t hs ht. omega (arith, empty_sum n i s hs);
}
  where
    empty_sum : (k i : ℕ) (s : Shard) → get_elem? (empty_shards k) i ≡ some s → s.sum ≡ 0
    empty_sum zero i s e = cc
    empty_sum (suc k) zero s e = ground arith
    empty_sum (suc k) (suc i) s e = empty_sum k i s e

-- If no image weighs more than `w`, the sums of any two shards that `pack_shards` returns are at
-- most `w` apart.
pub pack_shards_balance :
    (w : ℕ) (used_images : List Image) (num_shards : ℕ) (shards : List Shard)
    → All (IsAtMost w) used_images
    → pack_shards used_images num_shards ≡ ok shards
    → (i j : ℕ) (s t : Shard) → get_elem? shards i ≡ some s
    → get_elem? shards j ≡ some t
    → s.sum ≤ t.sum + w
unfolding pack_shards
pack_shards_balance w used n shards light h =
    let b =
      pack_images_ind (IsBalanced w) (keep_balance w) (sort_images used) (empty_shards n) shards
        (start-IsBalanced w used n light) h in
    b.near

weightᴰ : {xs ys : List Image} → Permᴰ xs ys → weight xs ≡ weight ys
weightᴰ Permᴰ.nil = refl
weightᴰ (Permᴰ.cons e p) = ground (arith, weightᴰ p)
weightᴰ (Permᴰ.swap e f) = ground arith
weightᴰ (Permᴰ.trans p q) = weightᴰ p ∙ weightᴰ q

weight-perm : {xs ys : List Image} → Perm xs ys → weight xs ≡ weight ys
weight-perm p = ∥∥₁_elim p (ℕ_set _ _) weightᴰ

-- The longest of the shards takes at most `limit`.
abbrev pub FitsIn : ℕ → Shard → Type 0
FitsIn limit s = s.sum ≤ limit

weight-packed-le :
    (limit : ℕ) (shards : List Shard)
    → All HasItsSum shards
    → All (FitsIn limit) shards
    → weight (packed shards) ≤ length shards * limit
weight-packed-le limit [] h f = omega arith
weight-packed-le limit (s ∷ rest) h f =
    omega (arith, weight-append s.images (packed rest), weight-packed-le limit rest h.1 f.1)

-- A shard beyond `limit + w` would push every other one beyond `limit`.
le-weight-packed :
    (limit : ℕ) (shards : List Shard)
    → All HasItsSum shards
    → ((j : ℕ) (t : Shard) → get_elem? shards j ≡ some t → suc limit ≤ t.sum)
    → length shards * suc limit ≤ weight (packed shards)
le-weight-packed limit [] h f = omega arith
le-weight-packed limit (s ∷ rest) h f = omega (
  arith,
  weight-append s.images (packed rest),
  le-weight-packed limit rest h.1 (λ j. f (suc j)),
  f 0 s refl,
)

crowded : (m k l total : ℕ) → m ≡ k → 0 < m → m * suc l ≤ total → total ≤ k * l → ⊥
crowded m k l total e p a b = let b' : total ≤ m * l = rw e b in omega arith

pos_length :
    (shards : List Shard) (i : ℕ) (s : Shard) → get_elem? shards i ≡ some s → 0 < length shards
pos_length [] i s e = cc
pos_length (t ∷ rest) i s e = omega arith

-- `pack_shards` approximates the best packing: if the same images, none heavier than `w`, can be
-- spread in any way over as many shards so that none exceeds `limit`, then none of the shards that
-- `pack_shards` returns exceeds `limit + w`.
pub pack_shards_approximates :
    (w limit : ℕ) (used_images : List Image) (num_shards : ℕ) (shards other : List Shard)
    → All (IsAtMost w) used_images
    → pack_shards used_images num_shards ≡ ok shards
    → Perm (packed other) used_images
    → All HasItsSum other
    → length other ≡ num_shards
    → All (FitsIn limit) other
    → (i : ℕ) (s : Shard) → get_elem? shards i ≡ some s
    → s.sum ≤ limit + w
pack_shards_approximates w limit used n shards other light h perm sums number fits i s e =
    elim (dec_le s.sum (limit + w)) [
      | yes small ↦ small
      | no large ↦
          let (placed, own, size) = pack_shards_partition used n shards h in
          let low : (j : ℕ) (t : Shard) → get_elem? shards j ≡ some t → suc limit ≤ t.sum =
            λ j t et. omega (arith, pack_shards_balance w used n shards light h i j s t e et) in
          let same : weight (packed shards) ≡ weight (packed other) =
            weight-perm placed ∙ sym (weight-perm perm) in
          absurd (
            crowded (length shards) (length other) limit (weight (packed shards))
              (size ∙ sym number) (pos_length shards i s e) (le-weight-packed limit shards own low)
              (rw same (weight-packed-le limit other sums fits)))
    ]
