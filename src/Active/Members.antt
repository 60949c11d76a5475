-- ===== src/Active/Members.antt =====
-- Which groups an instance is a member of, by playbooks/active_instances_in_asg.py.
use mathlib.Core.Path.{subst}
use configuration.Base.{
  ◌≡◌, some, List, [], ◌∷◌, String, ◌==◌, string_eq, Result, ok, lookup, >>=-eq-ok, for_each, IsIn,
  at_front, behind, ◌⊎◌, inl, inr, Bool-cases, lookup-put, put, Dict,
}
use configuration.Active.{Group, instances_to_groups, enter_instances, enter_members}

-- An instance of a group of that name.
abbrev pub IsMember : String → String → List Group → Type 0
IsMember i name groups =
    (group : Group) × IsIn group groups × (group.name ≡ name) × IsIn i group.instances

enter_instances_sound :
    (i name other : String) (instances : List String) (entries : Dict String String)
    → lookup i (enter_instances name instances entries) ≡ some other
    → ((name ≡ other) × IsIn i instances) ⊎ (lookup i entries ≡ some other)
enter_instances_sound i name other [] entries e = inr e
enter_instances_sound i name other (j ∷ instances) entries e =
    elim (enter_instances_sound i name other instances (put j name entries) e) [
      | inl (same, place) ↦ inl (same, behind place)
      | inr before ↦ elim (Bool-cases (j == i)) [
        | inl here ↦
            let own = (string_eq.beq_iff j i).0 here in
            let entered : some name ≡ some other =
              rw (lookup-put j i name entries, here) at before in
            inl (cc, subst (λ k. IsIn k (j ∷ instances)) own at_front)
        | inr elsewhere ↦ inr (rw (lookup-put j i name entries, elsewhere) at before)
      ]
    ]

enter_members_sound :
    (i other : String) (groups : List Group) (entries : Dict String String)
    → lookup i (enter_members groups entries) ≡ some other
    → IsMember i other groups ⊎ (lookup i entries ≡ some other)
enter_members_sound i other [] entries e = inr e
enter_members_sound i other (g ∷ groups) entries e =
    elim (enter_members_sound i other groups (enter_instances g.name g.instances entries) e) [
      | inl (group, place, named, member) ↦ inl (group, behind place, named, member)
      | inr before ↦ elim (enter_instances_sound i g.name other g.instances entries before) [
        | inl (named, member) ↦ inl (g, at_front, named, member)
        | inr earlier ↦ inr earlier
      ]
    ]

pub instances_to_groups_sound :
    (i name : String) (groups : List Group)
    → lookup i (instances_to_groups groups) ≡ some name
    → IsMember i name groups
unfolding instances_to_groups
instances_to_groups_sound i name groups e = elim (enter_members_sound i name groups [] e) [
  | inl member ↦ member
  | inr before ↦ absurd (cc before)
]

-- Each turn of a loop that returns has returned.
pub for_each-turn {ℓ κ} :
    {S : Type ℓ} {A : Type κ} (body : A → S → Result S) (xs : List A) (s s' : S)
    → for_each body xs s ≡ ok s'
    → (x : A) → IsIn x xs
    → (t : S) × (t' : S) × (body x t ≡ ok t')
for_each-turn body [] s s' e y i = elim i [ ]
for_each-turn body (x ∷ xs) s s' e y at_front =
    let (t, one, rest) = >>=-eq-ok (body x s) _ e in (s, t, one)
for_each-turn body (x ∷ xs) s s' e y (behind i) =
    let (t, one, rest) = >>=-eq-ok (body x s) _ e in for_each-turn body xs t s' rest y i
