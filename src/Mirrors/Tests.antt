-- ===== src/Mirrors/Tests.antt =====
-- Runs of repos_from_orgs.py, and its theorem at an organization with one page.
use configuration.Base.{
  ◌≡◌, refl, true, false, none, some, List, [], ◌∷◌, ◌++◌, map, inl, inr, ok, raised, key_error,
  system_exit, nat_eq, string_eq, ◌==◌, if◌then◌else◌, arith,
}
use configuration.Mirrors.Run.{
  RepoData, Repo, repo_list, no_list, get, write_repos, run, Args, Host, append_repos, fetch_pages,
  fetch_orgs, refresh_cache, update_repos, main,
}
use configuration.Mirrors.Paged.{all_requests, all_repos, all_commands}
use configuration.Mirrors.Mirrored.{at_first, main-mirrors}

program : Unit {0}
unfolding append_repos fetch_pages fetch_orgs refresh_cache update_repos main
program = tt

abbrev page : List RepoData
page =
    record { html_url = some "https://g/a"; name = some "a"; owner = some "o" }
    ∷ record { html_url = none; name = none; owner = none }
    ∷ []

abbrev repo : Repo
repo = record { html_url = "https://g/a"; name = "a"; org = "o" }

abbrev host : Host
host = record {
  path = "/p";
  orgs = some ("o" ∷ []);
  get = λ org n. ok (if n == 1 then repo_list page else no_list);
  dumps = λ repos. "[a]";
  loads = λ s. ok (repo ∷ []);
  exists = λ n path. false;
  lock = λ run_type. run_type == "";
}

abbrev args : Args
args = record { refresh = false; datadir = some "/d" }

run_first :
    (main host args 5 (at_first 0)).2
    ≡ get "https://api.github.com/users/o/repos?page=1"
      ∷ get "https://api.github.com/users/o/repos?page=2"
      ∷ write_repos "[a]"
      ∷ run "mkdir -p /d/o/a.git"
      ∷ run "git clone --mirror https://g/a /d/o/a.git"
      ∷ run "cd /d/o/a.git && git update-server-info"
      ∷ []
unfolding program
run_first = refl

run_locked : (main host (record args { refresh = true }) 5 (at_first 0)).0 ≡ raised (system_exit 0)
unfolding program
run_locked = refl

run_unowned :
    append_repos (record { html_url = some "u"; name = some "n"; owner = none } ∷ []) []
    ≡ raised key_error
unfolding program
run_unowned = refl

-- A directory that is there is taken for a clone, also where the clone has failed.
run_again :
    (main
      (record host { exists = λ n path. true })
      args
      5
      (record { repos_json = some "[a]"; asked = 0 })).2
    ≡ run "cd /d/o/a.git && git fetch --all --tags"
      ∷ run "cd /d/o/a.git && git update-server-info"
      ∷ []
unfolding program
run_again = refl

main-mirrors_example :
    let repos = all_repos host 5 (λ org. page ∷ []) ("o" ∷ []) in
    let (result, s, calls) =
      main host (record { refresh = false; datadir = some "/d" }) 5 (at_first 0) in
    (result ≡ ok true)
    × (calls
        ≡ all_requests host 5 (λ org. page ∷ []) ("o" ∷ [])
          ++ write_repos (host.dumps repos) ∷ map run (all_commands host "/d" 0 repos))
main-mirrors_example =
    main-mirrors host 5 (λ org. page ∷ []) ("o" ∷ []) "/d" 0 refl refl
      (
        (
          omega arith,
          (refl, inl refl),
          ((inr ("https://g/a", refl, "a", refl, "o", refl), (inl refl, tt)), tt),
        ),
        tt,
      )
      refl refl
