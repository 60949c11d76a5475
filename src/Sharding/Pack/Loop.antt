-- ===== src/Sharding/Pack/Loop.antt =====
-- The loop of `pack_shards`: what `min` returns, what the update in place does, and an invariant
-- rule.
use configuration.Base.{
  ℕ, zero, suc, ◌≤◌, ◌<◌, ◌≡◌, refl, ap, Option, none, some, List, [], ◌∷◌, arith, length,
  get_elem?, if◌then◌else◌, ok, Option-cases, Bool-cases, ltb, nat_beq, inl, inr,
}
use mathlib.Core.Path.{subst}
use mathlib.Core.Option
use configuration.Sharding.Pack.{Image, Shard, lesser, min_shard, add_image, update_at, pack_images}

-- The position that was found holds a shard with the sum that was found, and no shard has less.
pub record IsLeast (shards : List Shard) (found : ℕ × ℕ) : Type 0 where
  pub in_range : found.0 < length shards
  pub at : Option.map (λ (s : Shard). s.sum) (get_elem? shards found.0) ≡ some found.1
  pub lower : (j : ℕ) (t : Shard) → get_elem? shards j ≡ some t → found.1 ≤ t.sum

IsLeast-here :
    (s : Shard) (rest : List Shard)
    → ((j : ℕ) (t : Shard) → get_elem? rest j ≡ some t → s.sum ≤ t.sum)
    → IsLeast (s ∷ rest) (0, s.sum)
IsLeast-here s rest h = record { in_range = omega arith; at = refl; lower = lower }
  where
    lower : (j : ℕ) (t : Shard) → get_elem? (s ∷ rest) j ≡ some t → s.sum ≤ t.sum
    lower zero t e = ground arith
    lower (suc j) t e = h j t e

IsLeast-there :
    (s : Shard) (rest : List Shard) (k m : ℕ)
    → IsLeast rest (k, m)
    → m < s.sum
    → IsLeast (s ∷ rest) (suc k, m)
IsLeast-there s rest k m h less = record {
  in_range = omega (arith, h.in_range);
  at = h.at;
  lower = lower;
}
  where
    lower : (j : ℕ) (t : Shard) → get_elem? (s ∷ rest) j ≡ some t → m ≤ t.sum
    lower zero t e = ground arith
    lower (suc j) t e = h.lower j t e

abbrev IsLeastOf : List Shard → Option (ℕ × ℕ) → Type 0
IsLeastOf rest none = rest ≡ []
IsLeastOf rest (some found) = IsLeast rest found

lesser-IsLeast :
    (s : Shard) (rest : List Shard) (o : Option (ℕ × ℕ))
    → IsLeastOf rest o
    → IsLeast (s ∷ rest) (lesser s o)
lesser-IsLeast s rest none h = IsLeast-here s rest (λ j t e. ground arith)
lesser-IsLeast s rest (some (k, m)) h = elim (Bool-cases (ltb m s.sum)) [
  | inl less ↦ rw less (IsLeast-there s rest k m h (ground arith))
  | inr more ↦ rw more (IsLeast-here s rest (λ j t e. ground (arith, h.lower j t)))
]

min_shard-IsLeastOf : (shards : List Shard) → IsLeastOf shards (min_shard shards)
unfolding min_shard
min_shard-IsLeastOf [] = refl
min_shard-IsLeastOf (s ∷ rest) = lesser-IsLeast s rest (min_shard rest) (min_shard-IsLeastOf rest)

pub min_shard-IsLeast :
    (shards : List Shard) (found : ℕ × ℕ) → min_shard shards ≡ some found → IsLeast shards found
min_shard-IsLeast shards found h = subst (IsLeastOf shards) h (min_shard-IsLeastOf shards)

pub length-update_at :
    (shards : List Shard) (i : ℕ) (f : Shard → Shard)
    → length (update_at shards i f) ≡ length shards
length-update_at [] i f = refl
length-update_at (s ∷ rest) zero f = refl
length-update_at (s ∷ rest) (suc i) f = ap suc (length-update_at rest i f)

pub get_elem?-update_at :
    (shards : List Shard) (i j : ℕ) (f : Shard → Shard)
    → get_elem? (update_at shards i f) j
      ≡ (if nat_beq i j then Option.map f (get_elem? shards j) else get_elem? shards j)
get_elem?-update_at [] i j f = ground arith
get_elem?-update_at (s ∷ rest) zero zero f = refl
get_elem?-update_at (s ∷ rest) zero (suc j) f = ground arith
get_elem?-update_at (s ∷ rest) (suc i) zero f = ground arith
get_elem?-update_at (s ∷ rest) (suc i) (suc j) f = ground (arith, get_elem?-update_at rest i j f)

module _ (P : List Image → List Shard → Type 0)
    (step : (x : Image) (rest : List Image) (shards : List Shard) (found : ℕ × ℕ)
      → IsLeast shards found
      → P (x ∷ rest) shards
      → P rest (update_at shards found.0 (add_image x))) where
  pub pack_images_ind :
      (images : List Image) (shards final : List Shard)
      → P images shards
      → pack_images images shards ≡ ok final
      → P [] final
  unfolding pack_images
  pack_images_ind [] shards final p h = let e : shards ≡ final = cc in subst (P []) e p
  pack_images_ind (x ∷ rest) shards final p h = elim (Option-cases (min_shard shards)) [
    | inl empty ↦ absurd (ground arith)
    | inr (found, e) ↦
        pack_images_ind rest (update_at shards found.0 (add_image x)) final
          (step x rest shards found (min_shard-IsLeast shards found e) p) (ground arith)
  ]
