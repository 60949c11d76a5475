-- ===== src/Mirrors/Run.antt =====
-- The functions and the run of repos_from_orgs.py. Whether a directory exists is answered by the number
-- of the question. The list of the repositories is a file that one run writes and another one reads.
use Prim.Native.String.{◌++◌ as ◌<>◌}
use configuration.Base.{
  ℕ, zero, suc, Bool, true, false, Option, none, some, List, [], ◌∷◌, ◌++◌, String, if◌then◌else◌,
  is_empty, show_nat, join_path, Result, ok, raised, key_error, other_error, system_exit,
  ◌>>=◌ as ◌>>>=◌,
}
use configuration.Base.Script.{Script, from, perform, assign, each, ◌>>=◌, ◌>>◌}

-- What GitHub says of a repository, by the keys that are read, and the login of its owner.
pub record RepoData : Type 0 where
  pub html_url : Option String
  pub name : Option String
  pub owner : Option String

pub record Repo : Type 0 where
  pub html_url : String
  pub name : String
  pub org : String

-- The body of an answer: a list, or something else.
pub data Answer : Type 0 where
  repo_list : List RepoData → Answer
  no_list : Answer

pub data Call : Type 0 where
  get : String → Call
  write_repos : String → Call
  run : String → Call
  print : String → Call

-- The file /var/tmp/repos.json, and how often it was asked whether a directory exists.
pub record RunState : Type 0 where
  pub repos_json : Option String
  pub asked : ℕ

pub record Args : Type 0 where
  pub refresh : Bool
  pub datadir : Option String

pub record Host : Type 0 where
  pub path : String
  -- orgs.yml, where it can be read
  pub orgs : Option (List String)
  pub get : String → ℕ → Result Answer
  pub dumps : List Repo → String
  pub loads : String → Result (List Repo)
  pub exists : ℕ → String → Bool
  -- whether no other instance holds the lock
  pub lock : String → Bool

-- `repo_data[key]`
abbrev get_key : Option String → Result String
get_key none = raised key_error
get_key (some value) = ok value

abbrev repo_with : RepoData → String → Result Repo
repo_with data_of html_url = get_key data_of.name >>>= λ name.
    get_key data_of.owner >>>= λ org. ok (record { html_url = html_url; name = name; org = org })

abbrev pub append_if : RepoData → Option String → List Repo → Result (List Repo)
append_if data_of none repos = ok repos
append_if data_of (some html_url) repos =
    repo_with data_of html_url >>>= λ repo. ok (repos ++ repo ∷ [])

unfoldable pub append_repos : List RepoData → List Repo → Result (List Repo)
append_repos [] repos = ok repos
append_repos (data_of ∷ org_data) repos =
    append_if data_of data_of.html_url repos >>>= append_repos org_data

module _ (host : Host) where
  abbrev pub page_url : String → ℕ → String
  page_url org page = "https://api.github.com/users/" <> org <> "/repos?page=" <> show_nat page

  abbrev pub after_page :
      (List Repo → Script RunState Call (Option (List Repo)))
      → List Repo
      → Answer
      → Script RunState Call (Option (List Repo))
  after_page again repos no_list = from (ok (some repos))
  after_page again repos (repo_list []) = from (ok (some repos))
  after_page again repos (repo_list (first ∷ rest)) =
      from (append_repos (first ∷ rest) repos) >>= again

  -- The loop over the pages has no bound: `none` says that it has not ended after so many of them.
  unfoldable pub fetch_pages :
      String → ℕ → ℕ → List Repo → Script RunState Call (Option (List Repo))
  fetch_pages org zero page repos = from (ok none)
  fetch_pages org (suc pages) page repos =
      perform (get (page_url org page)) (host.get org page)
      >>= after_page (fetch_pages org pages (suc page)) repos

  abbrev pub then_orgs :
      (List Repo → Script RunState Call (Option (List Repo)))
      → Option (List Repo)
      → Script RunState Call (Option (List Repo))
  then_orgs again none = from (ok none)
  then_orgs again (some repos) = again repos

  unfoldable pub fetch_orgs :
      List String → ℕ → List Repo → Script RunState Call (Option (List Repo))
  fetch_orgs [] pages repos = from (ok (some repos))
  fetch_orgs (org ∷ orgs) pages repos =
      fetch_pages org pages 1 repos >>= then_orgs (fetch_orgs orgs pages)

  abbrev pub cached : List Repo → RunState → RunState
  cached repos state = record state { repos_json = some (host.dumps repos) }

  -- Whether it has ended.
  abbrev pub write_if : Option (List Repo) → Script RunState Call Bool
  write_if none = from (ok false)
  write_if (some repos) =
      perform (write_repos (host.dumps repos)) (ok (tt {0}))
      >> assign (cached repos)
      >> from (ok true)

  abbrev pub refresh_from : Option (List String) → ℕ → Script RunState Call Bool
  refresh_from none pages =
      perform (print ("Unable to read " <> host.path <> "/orgs.yml, does it exist?")) (ok (tt {0}))
      >> from (raised (system_exit 1))
  refresh_from (some orgs) pages = fetch_orgs orgs pages [] >>= write_if

  unfoldable pub refresh_cache : ℕ → Script RunState Call Bool
  refresh_cache pages = refresh_from host.orgs pages

  abbrev pub run_cmd : String → Script RunState Call (Unit {0})
  run_cmd cmd = perform (run cmd) (ok tt)

  abbrev pub exists_now : String → Script RunState Call Bool
  exists_now path state =
      (ok (host.exists state.asked path), record state { asked = suc state.asked }, [])

  abbrev pub repo_path_of : String → Repo → String
  repo_path_of datadir repo = join_path (join_path datadir repo.org) (repo.name <> ".git")

  abbrev pub commands : Repo → String → Bool → List String
  commands repo repo_path true =
      ("cd " <> repo_path <> " && git fetch --all --tags")
      ∷ ("cd " <> repo_path <> " && git update-server-info")
      ∷ []
  commands repo repo_path false =
      ("mkdir -p " <> repo_path)
      ∷ ("git clone --mirror " <> repo.html_url <> " " <> repo_path)
      ∷ ("cd " <> repo_path <> " && git update-server-info")
      ∷ []

  abbrev pub update_repo : String → Repo → Script RunState Call (Unit {0})
  update_repo datadir repo = exists_now (repo_path_of datadir repo) >>= λ there.
      each run_cmd (commands repo (repo_path_of datadir repo) there)

  abbrev load_from : Option String → Result (List Repo)
  load_from none = raised other_error
  load_from (some text) = host.loads text

  -- A file that is not there raises, as one that is no JSON does.
  abbrev pub load_repos : Script RunState Call (List Repo)
  load_repos state = (load_from state.repos_json, state, [])

  unfoldable pub update_repos : String → Script RunState Call (Unit {0})
  update_repos datadir = load_repos >>= each (update_repo datadir)

  abbrev pub check_running : String → Script RunState Call (Unit {0})
  check_running run_type = from (if host.lock run_type then ok tt else raised (system_exit 0))

  abbrev has_cache : Option String → Bool
  has_cache none = false
  has_cache (some text) = true

  abbrev refresh_if_missing : ℕ → Script RunState Call Bool
  refresh_if_missing pages state =
      (if has_cache state.repos_json then from (ok true) else refresh_cache pages) state

  abbrev pub update_if : String → Bool → Script RunState Call Bool
  update_if datadir true = update_repos datadir >> from (ok true)
  update_if datadir false = from (ok false)

  abbrev stop_without_datadir : Script RunState Call Bool
  stop_without_datadir =
      perform (print "Please specificy a repository directory") (ok (tt {0}))
      >> from (raised (system_exit 1))

  abbrev pub mirror : Option String → ℕ → Script RunState Call Bool
  mirror none pages = stop_without_datadir
  mirror (some datadir) pages =
      if is_empty datadir
      then stop_without_datadir
      else refresh_if_missing pages >>= update_if datadir

  unfoldable pub main : Args → ℕ → Script RunState Call Bool
  main args pages =
      if args.refresh
      then check_running "refresh" >> refresh_cache pages
      else check_running "" >> mirror args.datadir pages
