-- ===== src/Packages.antt =====
-- util/jenkins/apt_check_upgrades.py, which says which packages can be upgraded.
mod Tests
pub mod Upgradable
use configuration.Base.{
  ℕ, Bool, true, false, Option, none, some, List, [], ◌∷◌, String, ◌==◌, string_eq, if◌then◌else◌,
  Exception, Result, ok, raised, attribute_error, other_error, Dict, lookup, put, ◌>>=◌,
}

pub record Version : Type 0 where
  pub version : String
  pub md5 : String
  pub summary : String
  pub homepage : String

-- A package that is not installed has no version that is.
pub record Package : Type 0 where
  pub name : String
  pub installed : Option Version
  pub candidate : Option Version

pub record Upgrade : Type 0 where
  pub current_version : String
  pub new_version : String
  pub summary : String
  pub current_md5 : String
  pub new_md5 : String
  pub homepage : String

-- Two versions of a package are equal if they have the same text.
abbrev pub same_version : Option Version → Option Version → Bool
same_version none none = true
same_version (some v) (some w) = v.version == w.version
same_version _ _ = false

-- The attributes of `None` are asked for where there is no version.
abbrev pub upgrade_of : Option Version → Option Version → Result (Option Upgrade)
upgrade_of (some v) (some w) = ok (
    some (record {
      current_version = v.version;
      new_version = w.version;
      summary = w.summary;
      current_md5 = v.md5;
      new_md5 = w.md5;
      homepage = w.homepage;
    }))
upgrade_of _ _ = raised attribute_error

unfoldable pub check_upgrade : Package → Result (Option Upgrade)
check_upgrade pkg =
    if same_version pkg.installed pkg.candidate
    then ok none
    else upgrade_of pkg.installed pkg.candidate

abbrev pub put_if : String → Option Upgrade → Dict String Upgrade → Dict String Upgrade
put_if name none need_upgrade = need_upgrade
put_if name (some upgrade) need_upgrade = put name upgrade need_upgrade

abbrev pub is_installed : Package → Bool
is_installed pkg = elim pkg.installed [ none ↦ false | some v ↦ true ]

-- The loop over all packages.
unfoldable pub check_all : List Package → Dict String Upgrade → Result (Dict String Upgrade)
check_all [] need_upgrade = ok need_upgrade
check_all (pkg ∷ cache) need_upgrade =
    (if is_installed pkg then check_upgrade pkg else ok none) >>= λ result.
    check_all cache (put_if pkg.name result need_upgrade)

abbrev pub found_in : String → List Package → Option Package
found_in name [] = none
found_in name (pkg ∷ cache) =
    let rest = found_in name cache in if pkg.name == name then some pkg else rest

abbrev pub check_found : Option Package → Result (Option Upgrade)
check_found none = raised other_error
check_found (some pkg) = check_upgrade pkg

-- The loop over the packages that are named.
unfoldable pub check_named :
    List Package → List String → Dict String Upgrade → Result (Dict String Upgrade)
check_named cache [] need_upgrade = ok need_upgrade
check_named cache (name ∷ packages) need_upgrade = check_found (found_in name cache) >>= λ result.
    check_named cache packages (put_if name result need_upgrade)

abbrev output_of :
    Bool
    → (Dict String Upgrade → String)
    → (Dict String Upgrade → String)
    → Dict String Upgrade
    → Option String
output_of as_yaml yaml json [] = none
output_of as_yaml yaml json (entry ∷ entries) =
    some (if as_yaml then yaml (entry ∷ entries) else json (entry ∷ entries))

-- What is printed, if anything; the two formats are parameters.
unfoldable pub main :
    (yaml json : Dict String Upgrade → String)
    → List Package
    → (as_yaml all : Bool) → List String
    → Result (Option String)
main yaml json cache as_yaml all packages =
    (if all then check_all cache [] else check_named cache packages []) >>= λ need_upgrade.
    ok (output_of as_yaml yaml json need_upgrade)
