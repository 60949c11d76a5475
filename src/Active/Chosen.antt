-- ===== src/Active/Chosen.antt =====
-- Whose address playbooks/active_instances_in_asg.py prints.
use mathlib.Core.Path.{subst}
use configuration.Base.{
  ◌<◌, ◌≡◌, refl, sym, ◌∙◌, ap, Bool, true, false, ◌||◌, Option, none, some, List, [], ◌∷◌, String,
  ◌==◌, string_eq, ltb, length, Result, ok, raised, lookup, insert, contains, contains-insert,
  >>=-eq-ok, for_each_adds, any, All, IsIn, at_front, behind, arith, beq_refl,
}
use configuration.Active.Members.{IsMember, instances_to_groups_sound, for_each-turn}
use configuration.Active.{
  Group, InstanceState, Aws, matching_groups, groups_to_instances, instances_to_groups, at_key,
  in_service, add_active, add_balancer, add_balancers, active_groups, printed, first_of_instances,
  first_address, choose, run,
}

any-IsIn {ℓ} :
    {A : Type ℓ} (test : A → Bool) (xs : List A) {x : A}
    → IsIn x xs
    → test x ≡ true
    → any test xs ≡ true
any-IsIn test [] i h = elim i [ ]
any-IsIn test (x ∷ xs) at_front h = rw h refl
any-IsIn test (x ∷ xs) (behind i) h = ground (arith, any-IsIn test xs i h)

-- The instances that a load balancer finds in service.
abbrev pub serving : Result (List InstanceState) → List String
serving (raised e) = []
serving (ok states) = in_service states

abbrev is_of : String → Option String → Bool
is_of name none = false
is_of name (some other) = other == name

at_key-some {ℓ} : {A : Type ℓ} (o : Option A) (a : A) → at_key o ≡ ok a → o ≡ some a
at_key-some none a e = absurd (cc e)
at_key-some (some b) a e = cc

All-of {ℓ κ} : {A : Type ℓ} (P : A → Type κ) (xs : List A) → ((x : A) → IsIn x xs → P x) → All P xs
All-of P [] h = tt
All-of P (x ∷ xs) h = (h x at_front, All-of P xs (λ y i. h y (behind i)))

module _ (aws : Aws) (groups : List Group) (name : String) where
  abbrev belongs : String → Bool
  belongs i = is_of name (lookup i (instances_to_groups groups))

  abbrev holds : List String → Bool
  holds active = contains active name

  add_active-holds :
      (i : String) (s s' : List String)
      → add_active aws (instances_to_groups groups) i s ≡ ok s'
      → holds s' ≡ (belongs i || holds s)
  add_active-holds i s s' e =
      let (other, there, added) = >>=-eq-ok (at_key (lookup i (instances_to_groups groups))) _ e in
      let found : lookup i (instances_to_groups groups) ≡ some other = at_key-some _ other there in
      let same : insert other s ≡ s' = cc in rw (found, sym same, contains-insert other name s) refl

  add_balancer-holds :
      (balancer : String) (s s' : List String)
      → add_balancer aws (instances_to_groups groups) balancer s ≡ ok s'
      → holds s' ≡ (any belongs (serving (aws.health balancer)) || holds s)
  add_balancer-holds balancer s s' e =
      let (states, answered, added) = >>=-eq-ok (aws.health balancer) _ e in
      rw answered (
        for_each_adds holds belongs (add_active aws (instances_to_groups groups)) add_active-holds
          (in_service states) s s' added)

  active_groups-holds :
      (active : List String)
      → 1 < length groups
      → active_groups aws groups ≡ ok active
      → holds active ≡ (
          any
            (λ group.
              any
                (λ balancer. any belongs (serving (aws.health balancer)))
                group.load_balancer_names)
            groups
          || false)
  unfolding active_groups
  active_groups-holds active more e =
      let several : ltb 1 (length groups) ≡ true = ground arith in
      for_each_adds holds
        (λ group.
          any (λ balancer. any belongs (serving (aws.health balancer))) group.load_balancer_names)
        (add_balancers aws (instances_to_groups groups))
        (λ group.
          for_each_adds holds (λ balancer. any belongs (serving (aws.health balancer)))
            (add_balancer aws (instances_to_groups groups)) add_balancer-holds
            group.load_balancer_names)
        groups [] active (rw several at e)

module _ (aws : Aws) (groups : List Group) where
  add_balancer-known :
      (balancer : String) (s s' : List String)
      → add_balancer aws (instances_to_groups groups) balancer s ≡ ok s'
      → (i : String) → IsIn i (serving (aws.health balancer))
      → (other : String) × (lookup i (instances_to_groups groups) ≡ some other)
  add_balancer-known balancer s s' e i in_balancer =
      let (states, answered, added) = >>=-eq-ok (aws.health balancer) _ e in
      let (t, t', one) =
        for_each-turn (add_active aws (instances_to_groups groups)) (in_service states) s s' added i
          (rw answered at in_balancer) in
      let (other, there, _) = >>=-eq-ok (at_key (lookup i (instances_to_groups groups))) _ one in
      (other, at_key-some _ other there)

  -- What is in service belongs to a group that matches, or the run ends in a `KeyError`.
  active_groups-known :
      (active : List String)
      → 1 < length groups
      → active_groups aws groups ≡ ok active
      → (group : Group) → IsIn group groups
      → (balancer : String) → IsIn balancer group.load_balancer_names
      → (i : String) → IsIn i (serving (aws.health balancer))
      → (other : String) × (lookup i (instances_to_groups groups) ≡ some other)
  unfolding active_groups
  active_groups-known active more e group in_groups balancer in_group i in_balancer =
      let several : ltb 1 (length groups) ≡ true = ground arith in
      let (s, s', one) =
        for_each-turn (add_balancers aws (instances_to_groups groups)) groups [] active
          (rw several at e) group in_groups in
      let (t, t', two) =
        for_each-turn (add_balancer aws (instances_to_groups groups)) group.load_balancer_names s s'
          one balancer in_group in
      add_balancer-known balancer t t' two i in_balancer

module _ (aws : Aws) where
  -- The address is that of one of the instances.
  abbrev pub IsAddress : String → List String → Type 0
  IsAddress host instances =
      (i : String) × (reservations : List (List (Option String))) × IsIn i instances
      × (aws.describe i ≡ ok reservations)
      × (first_address reservations ≡ ok (some host))

  printed-IsAddress :
      (i : String) (instances : List String) (host : String) (address : Option String)
      (reservations : List (List (Option String)))
      → aws.describe i ≡ ok reservations
      → first_address reservations ≡ ok address
      → (first_of_instances aws instances (ok none) ≡ ok (some host) → IsAddress host instances)
      → printed aws address (first_of_instances aws instances (ok none)) ≡ ok (some host)
      → IsAddress host (i ∷ instances)
  printed-IsAddress i instances host none reservations answered first rest e =
      let (j, r, place, a, f) = rest e in (j, r, behind place, a, f)
  printed-IsAddress i instances host (some address) reservations answered first rest e =
      (i, reservations, at_front, answered, first ∙ e)

  first_of_instances-IsAddress :
      (instances : List String) (host : String)
      → first_of_instances aws instances (ok none) ≡ ok (some host)
      → IsAddress host instances
  first_of_instances-IsAddress [] host e = absurd (cc e)
  first_of_instances-IsAddress (i ∷ instances) host e =
      let (reservations, answered, e_1) = >>=-eq-ok (aws.describe i) _ e in
      let (address, first, e_2) = >>=-eq-ok (first_address reservations) _ e_1 in
      printed-IsAddress i instances host address reservations answered first
        (first_of_instances-IsAddress instances host) e_2

  -- The address is that of a member of the group.
  abbrev pub IsOf : String → String → List Group → Type 0
  IsOf host name groups =
      (instances : List String) × (lookup name (groups_to_instances groups) ≡ some instances)
      × IsAddress host instances

  -- All that the load balancers of the groups have in service are members of a group of that name.
  abbrev pub IsSole : String → List Group → Type 0
  IsSole name groups =
      All
        (λ group.
          All (λ balancer. All (λ i. IsMember i name groups) (serving (aws.health balancer)))
            group.load_balancer_names)
        groups

  choose-name :
      (groups : List Group) (active : List String) (host : String)
      → 1 < length groups
      → choose aws groups active ≡ ok (some host)
      → (name : String) × (active ≡ name ∷ []) × IsOf host name groups
  choose-name groups [] host more e =
      absurd (
        let several : ltb 1 (length groups) ≡ true = ground arith in let e' = rw several at e in cc)
  choose-name groups (name ∷ other ∷ active) host more e =
      let several : ltb 1 (length groups) ≡ true = ground arith in
      let both : ltb 1 (length (name ∷ other ∷ active)) ≡ true = ground arith in
      let e' = rw (several, both) at e in absurd (cc e')
  choose-name groups (name ∷ []) host more e =
      let several : ltb 1 (length groups) ≡ true = ground arith in
      let e' = rw several at e in
      let (instances, there, first) =
        >>=-eq-ok (at_key (lookup name (groups_to_instances groups))) _ e' in
      (
        name,
        refl,
        (
          instances,
          at_key-some _ instances there,
          first_of_instances-IsAddress instances host first,
        ),
      )

  IsSole-active :
      (groups : List Group) (name : String)
      → 1 < length groups
      → active_groups aws groups ≡ ok (name ∷ [])
      → IsSole name groups
  IsSole-active groups name more e = All-of _ groups (λ group in_groups.
      All-of _ group.load_balancer_names (λ balancer in_group.
        All-of _ (serving (aws.health balancer)) (λ i in_balancer.
          let (other, there) =
            active_groups-known aws groups (name ∷ []) more e group in_groups balancer in_group i
              in_balancer in
          let own : is_of other (lookup i (instances_to_groups groups)) ≡ true =
            rw (there, beq_refl) refl in
          let holds_it = active_groups-holds aws groups other (name ∷ []) more e in
          let seen =
            any-IsIn
              (λ group.
                any
                  (λ balancer.
                    any (λ j. is_of other (lookup j (instances_to_groups groups)))
                      (serving (aws.health balancer)))
                  group.load_balancer_names)
              groups in_groups
              (any-IsIn
                (λ balancer.
                  any (λ j. is_of other (lookup j (instances_to_groups groups)))
                    (serving (aws.health balancer)))
                group.load_balancer_names in_group
                (any-IsIn (λ j. is_of other (lookup j (instances_to_groups groups)))
                  (serving (aws.health balancer)) in_balancer own)) in
          let same : (name == other) ≡ true = ground arith in
          subst (λ n. IsMember i n groups) (sym ((string_eq.beq_iff name other).0 same))
            (instances_to_groups_sound i other groups there))))

pub run-IsSole :
    (aws : Aws) (asg_name : String) (groups : List Group) (host : String)
    → 1 < length (matching_groups asg_name groups)
    → run aws asg_name groups ≡ ok (some host)
    → (name : String) × IsOf aws host name (matching_groups asg_name groups)
      × IsSole aws name (matching_groups asg_name groups)
unfolding run
run-IsSole aws asg_name groups host more e =
    let matching = matching_groups asg_name groups in
    let (active, found, chosen) = >>=-eq-ok (active_groups aws matching) _ e in
    let (name, only, own) = choose-name aws matching active host more chosen in
    (name, own, IsSole-active aws matching name more (found ∙ ap (λ names. ok names) only))
