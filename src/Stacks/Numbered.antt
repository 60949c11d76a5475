-- ===== src/Stacks/Numbered.antt =====
-- The numbers of the instances in the configuration of ssh.
use mathlib.Core.Path.{subst}
use mathlib.Core.List.{append_assoc, append-nil, flatten}
use configuration.Base.{
  ℕ, suc, ◌≤◌, ◌<◌, Bool, true, false, Option, none, some, ◌≡◌, refl, sym, ◌∙◌, ap, List, [], ◌∷◌,
  ◌++◌, String, string_eq, beq_refl, if◌then◌else◌, Result, ok, raised, type_error, other_error,
  Dict, lookup, put, lookup-put, count, flat_map, All, All-imp, arith,
}
use configuration.Dns.Stack.{Resource, vpc_for_stack_name}
use configuration.Stacks.SshConfig.{
  Args, Aws, Instance, Settings, settings_of, configs, logical_id_of, Written, number_of, add_named,
  add_instances, add_reservations, nothing_printed, write_configs, ssh_config,
}

-- The instances that are given a name, each with its logical id and how many came before it with
-- the same one.
abbrev pub numbered_as : Option String → Instance → List String → List (Instance × String × ℕ)
numbered_as none i before = []
numbered_as (some logical_id) i before = (i, logical_id, count logical_id before) ∷ []

abbrev pub seen : Option String → List String → List String
seen none before = before
seen (some logical_id) before = logical_id ∷ before

abbrev pub numbered : List String → List Instance → List (Instance × String × ℕ)
numbered before [] = []
numbered before (i ∷ instances) =
    numbered_as (logical_id_of i) i before ++ numbered (seen (logical_id_of i) before) instances

-- No two of them have the same logical id and the same number.
abbrev Differs : Instance × String × ℕ → Instance × String × ℕ → Type 0
Differs (i, id, n) (j, other, k) = id ≡ other → n < k

abbrev pub AllDiffer : List (Instance × String × ℕ) → Type 0
AllDiffer [] = Unit
AllDiffer (x ∷ xs) = All (Differs x) xs × AllDiffer xs

abbrev IsFrom : List String → Instance × String × ℕ → Type 0
IsFrom before (i, id, n) = count id before ≤ n

count-seen :
    (id : String) (logical_id : Option String) (before : List String)
    → count id before ≤ count id (seen logical_id before)
count-seen id none before = omega arith
count-seen id (some other) before = omega arith

numbered_as-IsFrom :
    (logical_id : Option String) (i : Instance) (before : List String)
    (rest : List (Instance × String × ℕ))
    → All (IsFrom (seen logical_id before)) rest
    → All (IsFrom before) (numbered_as logical_id i before ++ rest)
numbered_as-IsFrom none i before rest h = h
numbered_as-IsFrom (some id) i before rest h = (
  omega arith,
  All-imp (IsFrom (id ∷ before)) (IsFrom before) rest
      (λ (j, other, k) le. omega (arith, count-seen other (some id) before, le)) h,
)

numbered-IsFrom :
    (instances : List Instance) (before : List String)
    → All (IsFrom before) (numbered before instances)
numbered-IsFrom [] before = tt
numbered-IsFrom (i ∷ instances) before =
    numbered_as-IsFrom (logical_id_of i) i before
      (numbered (seen (logical_id_of i) before) instances)
      (numbered-IsFrom instances (seen (logical_id_of i) before))

numbered_as-AllDiffer :
    (logical_id : Option String) (i : Instance) (before : List String)
    (rest : List (Instance × String × ℕ))
    → All (IsFrom (seen logical_id before)) rest
    → AllDiffer rest
    → AllDiffer (numbered_as logical_id i before ++ rest)
numbered_as-AllDiffer none i before rest h d = d
numbered_as-AllDiffer (some id) i before rest h d = (
  All-imp (IsFrom (id ∷ before)) (Differs (i, id, count id before)) rest
      (λ (j, other, k) le same. ground (arith, beq_refl id)) h,
  d,
)

numbered-AllDiffer :
    (instances : List Instance) (before : List String) → AllDiffer (numbered before instances)
numbered-AllDiffer [] before = tt
numbered-AllDiffer (i ∷ instances) before =
    let more = seen (logical_id_of i) before in
    numbered_as-AllDiffer (logical_id_of i) i before (numbered more instances)
      (numbered-IsFrom instances more) (numbered-AllDiffer instances more)

abbrev Counts : List String → Dict String ℕ → Type 0
Counts before counter = (id : String) → number_of (lookup id counter) ≡ count id before

flat_map-append :
    {A B : Type 0} (f : A → List B) (xs ys : List A)
    → flat_map f (xs ++ ys) ≡ flat_map f xs ++ flat_map f ys
flat_map-append f [] ys = refl
flat_map-append f (x ∷ xs) ys =
    rw (flat_map-append f xs ys) (sym (append_assoc (f x) (flat_map f xs) (flat_map f ys)))

module _ (s : Settings) where
  -- The counter holds the numbers of the instances that were walked, and their texts are printed.
  abbrev Walks : List String → List (Instance × String × ℕ) → Written → Written → Type 0
  Walks after entries p q =
      Counts after q.id_type_counter × (q.printed ≡ p.printed ++ flat_map (configs s) entries)

  number_of-put :
      (id other : String) (before : List String) (counter : Dict String ℕ)
      → Counts before counter
      → number_of (lookup other (put id (suc (count id before)) counter))
        ≡ count other (id ∷ before)
  number_of-put id other before counter h = ground (
    arith,
    lookup-put id other (suc (count id before)) counter,
    h other,
    string_eq.beq_iff id other,
  )

  add_named-Walks :
      (logical_id : Option String) (i : Instance) (before : List String) (p : Written)
      → Counts before p.id_type_counter
      → Walks
          (seen logical_id before)
          (numbered_as logical_id i before)
          p
          (add_named s i logical_id p)
  add_named-Walks none i before p h = (h, sym (append-nil _))
  add_named-Walks (some id) i before p h = rw (h id) (
    (λ other. number_of-put id other before p.id_type_counter h),
    ap (λ texts. p.printed ++ texts) (sym (append-nil _)),
  )

  add_instances-printed :
      (instances : List Instance) (before : List String) (p : Written)
      → Counts before p.id_type_counter
      → (add_instances s instances p).printed
        ≡ p.printed ++ flat_map (configs s) (numbered before instances)
  add_instances-printed [] before p h = sym (append-nil _)
  add_instances-printed (i ∷ instances) before p h =
      let more = seen (logical_id_of i) before in
      let entries = numbered_as (logical_id_of i) i before in
      let next = add_named s i (logical_id_of i) p in
      let (counts, texts) = add_named-Walks (logical_id_of i) i before p h in
      add_instances-printed instances more next counts
      ∙ (ap (λ front. front ++ flat_map (configs s) (numbered more instances)) texts
          ∙ (append_assoc p.printed (flat_map (configs s) entries) _
              ∙ ap (λ rest. p.printed ++ rest)
                  (sym (flat_map-append (configs s) entries (numbered more instances)))))

  add_instances-append :
      (front back : List Instance) (p : Written)
      → add_instances s (front ++ back) p ≡ add_instances s back (add_instances s front p)
  add_instances-append [] back p = refl
  add_instances-append (i ∷ front) back p =
      add_instances-append front back (add_named s i (logical_id_of i) p)

  add_reservations-flatten :
      (reservations : List (List Instance)) (p : Written)
      → add_reservations s reservations p ≡ add_instances s (flatten reservations) p
  unfolding flatten
  add_reservations-flatten [] p = refl
  add_reservations-flatten (instances ∷ reservations) p =
      add_reservations-flatten reservations (add_instances s instances p)
      ∙ sym (add_instances-append instances (flatten reservations) p)

configure_if :
    (aws : Aws) (args : Args) (resources : List Resource) (reservations : List (List Instance))
    → args.vpc ≡ false
    → args.stack_name_given ≡ true
    → aws.list_stack_resources args.stack_name ≡ ok resources
    → aws.get_all_instances (vpc_for_stack_name resources) ≡ ok reservations
    → ssh_config aws args
      ≡ ok (add_reservations (settings_of args) reservations nothing_printed).printed
unfolding ssh_config
configure_if aws args resources reservations by_name given listed found =
    subst (λ vpc. configured vpc args.stack_name_given ≡ answer) (sym by_name)
      (subst (λ named. configured false named ≡ answer) (sym given) (rw (listed, found) refl))
  where
    answer : Result (List String)
    answer = ok (add_reservations (settings_of args) reservations nothing_printed).printed

    configured : Bool → Bool → Result (List String)
    configured vpc named =
        if vpc
        then raised type_error
        else if named
        then write_configs aws args
        else raised other_error

-- If a stack is named and what is asked for is answered, the texts of all instances that have a
-- logical id are printed, in their order, each with the number of those before it that have the
-- same one; and no two instances have both the same logical id and the same number.
pub ssh_config-numbered :
    (aws : Aws) (args : Args) (resources : List Resource) (reservations : List (List Instance))
    → args.vpc ≡ false
    → args.stack_name_given ≡ true
    → aws.list_stack_resources args.stack_name ≡ ok resources
    → aws.get_all_instances (vpc_for_stack_name resources) ≡ ok reservations
    → let named = numbered [] (flatten reservations) in
      (ssh_config aws args ≡ ok (flat_map (configs (settings_of args)) named)) × AllDiffer named
ssh_config-numbered aws args resources reservations by_name given listed found =
    let s = settings_of args in
    let whole =
      ap (λ (q : Written). q.printed) (add_reservations-flatten s reservations nothing_printed)
      ∙ add_instances-printed s (flatten reservations) [] nothing_printed (λ id. refl) in
    (
      subst (λ (texts : List String). ssh_config aws args ≡ ok texts) whole
          (configure_if aws args resources reservations by_name given listed found),
      numbered-AllDiffer (flatten reservations) [],
    )
