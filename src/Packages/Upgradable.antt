-- ===== src/Packages/Upgradable.antt =====
-- Which packages apt_check_upgrades.py names.
use configuration.Base.{
  Bool, true, false, Option, none, some, ◌≡◌, refl, ap, ◌∙◌, List, [], ◌∷◌, String, ◌==◌, string_eq,
  if◌then◌else◌, ok, Dict, lookup, All, lookup-put, Bool-cases, inl, inr, arith,
}
use configuration.Packages.{
  Version, Package, Upgrade, same_version, upgrade_of, check_upgrade, put_if, check_found, found_in,
  check_named,
}

-- An upgrade is due from one version to another if their texts differ.
abbrev due : Option Version → Option Version → Option Upgrade
due (some old) (some new) =
    if old.version == new.version
    then none
    else some (record {
      current_version = old.version;
      new_version = new.version;
      summary = new.summary;
      current_md5 = old.md5;
      new_md5 = new.md5;
      homepage = new.homepage;
    })
due _ _ = none

abbrev due_for : Option Package → Option Upgrade
due_for none = none
due_for (some pkg) = due pkg.installed pkg.candidate

-- The upgrade that is due for a package of the cache.
abbrev pub upgrade_for : List Package → String → Option Upgrade
upgrade_for cache name = due_for (found_in name cache)

-- Both versions are there, or neither.
abbrev pub IsComparable : Option Version → Option Version → Type 0
IsComparable none none = Unit
IsComparable (some old) (some new) = Unit
IsComparable _ _ = ⊥

abbrev pub IsKnown : Option Package → Type 0
IsKnown none = ⊥
IsKnown (some pkg) = IsComparable pkg.installed pkg.candidate

compared :
    (installed candidate : Option Version)
    → IsComparable installed candidate
    → (if same_version installed candidate then ok none else upgrade_of installed candidate)
      ≡ ok (due installed candidate)
compared none none h = refl
compared none (some new) h = elim h [ ]
compared (some old) none h = elim h [ ]
compared (some old) (some new) h = elim (Bool-cases (old.version == new.version)) [
  | inl same ↦ rw same refl
  | inr other ↦ rw other refl
]

check_found-due_for : (pkg : Option Package) → IsKnown pkg → check_found pkg ≡ ok (due_for pkg)
unfolding check_upgrade
check_found-due_for none h = elim h [ ]
check_found-due_for (some pkg) h = compared pkg.installed pkg.candidate h

-- The last of the packages that are named.
abbrev pub asked : String → List String → Bool
asked name [] = false
asked name (other ∷ packages) = if other == name then true else asked name packages

abbrev or_before : Option Upgrade → Option Upgrade → Option Upgrade
or_before none before = before
or_before (some upgrade) before = some upgrade

-- What the dictionary has under a name once the packages of a list were looked at.
abbrev entry_after : List Package → List String → String → Option Upgrade → Option Upgrade
entry_after cache packages name before =
    if asked name packages then or_before (upgrade_for cache name) before else before

lookup-put_if :
    (other name : String) (result : Option Upgrade) (d : Dict String Upgrade)
    → lookup name (put_if other result d)
      ≡ (if other == name then or_before result (lookup name d) else lookup name d)
lookup-put_if other name none d = ground arith
lookup-put_if other name (some upgrade) d = lookup-put other name upgrade d

or_before_twice :
    (result before : Option Upgrade)
    → or_before result (or_before result before) ≡ or_before result before
or_before_twice none before = refl
or_before_twice (some upgrade) before = refl

if_twice :
    (again : Bool) (result before : Option Upgrade)
    → (if again then or_before result (or_before result before) else or_before result before)
      ≡ or_before result before
if_twice true result before = or_before_twice result before
if_twice false result before = refl

or_before-none : (result : Option Upgrade) → or_before result none ≡ result
or_before-none none = refl
or_before-none (some upgrade) = refl

module _ (cache : List Package) where
  -- It is in the cache, with both versions or neither.
  abbrev pub IsAnswered : String → Type 0
  IsAnswered name = IsKnown (found_in name cache)

  entry_after-put_if :
      (other name : String) (packages : List String) (d : Dict String Upgrade)
      → entry_after cache packages name (lookup name (put_if other (upgrade_for cache other) d))
        ≡ entry_after cache (other ∷ packages) name (lookup name d)
  entry_after-put_if other name packages d = elim (Bool-cases (other == name)) [
    | inl same ↦
        let e = (string_eq.beq_iff other name).0 same in
        let result = upgrade_for cache name in
        let before = lookup name d in
        let now : lookup name (put_if other (upgrade_for cache other) d) ≡ or_before result before =
          lookup-put_if other name (upgrade_for cache other) d
          ∙ (rw same (ap (λ n. or_before (upgrade_for cache n) before) e)) in
        ap (λ o. if asked name packages then or_before result o else o) now
        ∙ (if_twice (asked name packages) result before ∙ rw same refl)
    | inr differs ↦ rw (lookup-put_if other name (upgrade_for cache other) d, differs) refl
  ]

  check_named-entries :
      (packages : List String) (d : Dict String Upgrade)
      → All IsAnswered packages
      → (found : Dict String Upgrade) × (check_named cache packages d ≡ ok found)
        × ((name : String) → lookup name found ≡ entry_after cache packages name (lookup name d))
  unfolding check_named
  check_named-entries [] d h = (d, refl, λ name. refl)
  check_named-entries (other ∷ packages) d (h, hs) =
      let (found, e, entries) =
        check_named-entries packages (put_if other (upgrade_for cache other) d) hs in
      let answer : check_found (found_in other cache) ≡ ok (upgrade_for cache other) =
        check_found-due_for (found_in other cache) h in
      (found, rw (answer, e) refl, λ name. entries name ∙ entry_after-put_if other name packages d)

  pub check_named-upgrades :
      (packages : List String)
      → All IsAnswered packages
      → (found : Dict String Upgrade) × (check_named cache packages [] ≡ ok found)
        × ((name : String)
            → lookup name found ≡ (if asked name packages then upgrade_for cache name else none))
  check_named-upgrades packages h =
      let (found, e, entries) = check_named-entries packages [] h in
      (
        found,
        e,
        λ name.
            entries name
            ∙ ap (λ o. if asked name packages then o else none)
                (or_before-none (upgrade_for cache name)),
      )
