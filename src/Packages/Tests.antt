-- ===== src/Packages/Tests.antt =====
-- Runs of apt_check_upgrades.py, and its theorem at two packages.
use configuration.Base.{
  ◌≡◌, refl, true, false, none, some, List, [], ◌∷◌, String, string_eq, ok, raised, attribute_error,
  other_error, Dict, lookup, if◌then◌else◌,
}
use configuration.Packages.{Version, Package, Upgrade, check_upgrade, check_all, check_named, main}
use configuration.Packages.Upgradable.{asked, upgrade_for, check_named-upgrades}

program : Unit {0}
unfolding check_upgrade check_all check_named main
program = tt

abbrev version_of : String → Version
version_of v = record { version = v; md5 = "m"; summary = "s"; homepage = "h" }

abbrev cache : List Package
cache =
    record { name = "a"; installed = some (version_of "1"); candidate = some (version_of "2") }
    ∷ record { name = "b"; installed = some (version_of "1"); candidate = some (version_of "1") }
    ∷ record { name = "c"; installed = none; candidate = some (version_of "1") }
    ∷ []

abbrev upgrade : Upgrade
upgrade = record {
  current_version = "1";
  new_version = "2";
  summary = "s";
  current_md5 = "m";
  new_md5 = "m";
  homepage = "h";
}

run_all : check_all cache [] ≡ ok (("a", upgrade) ∷ [])
unfolding program
run_all = refl

-- A package that is named and not installed.
run_not_installed : check_named cache ("c" ∷ []) [] ≡ raised attribute_error
unfolding program
run_not_installed = refl

run_unknown : check_named cache ("d" ∷ []) [] ≡ raised other_error
unfolding program
run_unknown = refl

run_nothing : main (λ d. "y") (λ d. "j") cache true false ("b" ∷ []) ≡ ok none
unfolding program
run_nothing = refl

check_named-upgrades_example :
    (found : Dict String Upgrade) × (check_named cache ("a" ∷ "b" ∷ []) [] ≡ ok found)
    × ((name : String)
        → lookup name found
          ≡ (if asked name ("a" ∷ "b" ∷ []) then upgrade_for cache name else none))
unfolding program
check_named-upgrades_example = check_named-upgrades cache ("a" ∷ "b" ∷ []) (tt, (tt, tt))
