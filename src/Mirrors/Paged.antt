-- ===== src/Mirrors/Paged.antt =====
-- What repos_from_orgs.py finds on the pages of the organizations, and what it does with it.
use Prim.Native.String.{◌++◌ as ◌<>◌}
use mathlib.Core.List.{append_assoc, append-nil, map-append}
use configuration.Base.{
  ℕ, zero, suc, ◌<◌, Bool, true, false, if◌then◌else◌, show_nat, join_path, Option, none, some, ◌≡◌,
  refl, sym, ap, ◌⊎◌, inl, inr, List, [], ◌∷◌, ◌++◌, map, String, length, ok, All, flat_map, arith,
}
use configuration.Base.Script.{Run, each}
use configuration.Mirrors.Run.{
  RepoData, Repo, repo_list, no_list, Call, get, run, RunState, Host, append_if, append_repos,
  fetch_pages, fetch_orgs, run_cmd, repo_path_of, commands, update_repo,
}

-- A repository with a URL has a name and an owner.
abbrev pub IsComplete : RepoData → Type 0
IsComplete d =
    (d.html_url ≡ none)
    ⊎ ((html_url : String) × (d.html_url ≡ some html_url)
        × (name : String) × (d.name ≡ some name)
        × (org : String) × (d.owner ≡ some org))

abbrev text : Option String → String
text none = ""
text (some s) = s

abbrev repo_if : RepoData → Option String → List Repo
repo_if d none = []
repo_if d (some html_url) =
    record { html_url = html_url; name = text d.name; org = text d.owner } ∷ []

abbrev repos_of : RepoData → List Repo
repos_of d = repo_if d d.html_url

append_if-ok :
    (d : RepoData) (repos : List Repo)
    → IsComplete d
    → append_if d d.html_url repos ≡ ok (repos ++ repos_of d)
append_if-ok d repos (inl e) = rw e (ap ok (sym (append-nil repos)))
append_if-ok d repos (inr (html_url, e, name, n, org, o)) = rw (e, n, o) refl

append_repos-ok :
    (org_data : List RepoData) (repos : List Repo)
    → All IsComplete org_data
    → append_repos org_data repos ≡ ok (repos ++ flat_map repos_of org_data)
unfolding append_repos
append_repos-ok [] repos h = ap ok (sym (append-nil repos))
append_repos-ok (d ∷ org_data) repos (h, hs) =
    rw (append_if-ok d repos h, append_repos-ok org_data (repos ++ repos_of d) hs)
      (ap ok (append_assoc repos (repos_of d) (flat_map repos_of org_data)))

-- The requests for as many pages as have something, and for the one behind them.
abbrev pub requests : String → ℕ → List (List RepoData) → List Call
requests org page [] =
    get ("https://api.github.com/users/" <> org <> "/repos?page=" <> show_nat page) ∷ []
requests org page (first ∷ pages) =
    get ("https://api.github.com/users/" <> org <> "/repos?page=" <> show_nat page)
    ∷ requests org (suc page) pages

-- A repository whose directory is there is fetched, another one is cloned into it.
abbrev pub brought : Repo → String → Bool → List String
brought repo path there =
    (if there
      then ("cd " <> path <> " && git fetch --all --tags") ∷ []
      else ("mkdir -p " <> path) ∷ ("git clone --mirror " <> repo.html_url <> " " <> path) ∷ [])
    ++ ("cd " <> path <> " && git update-server-info") ∷ []

module _ (host : Host) where
  -- The pages of an organization from a number on, up to the first that has nothing.
  abbrev pub IsPaged : String → ℕ → List (List RepoData) → Type 0
  IsPaged org page [] = (host.get org page ≡ ok no_list) ⊎ (host.get org page ≡ ok (repo_list []))
  IsPaged org page ([] ∷ pages) = ⊥
  IsPaged org page ((d ∷ org_data) ∷ pages) =
      (host.get org page ≡ ok (repo_list (d ∷ org_data))) × IsPaged org (suc page) pages

  abbrev found_on : List (List RepoData) → List Repo
  found_on = flat_map (flat_map repos_of)

  -- It returns a list after the requests, and changes no file.
  abbrev pub Fetches :
      RunState → Run RunState Call (Option (List Repo)) → List Call → List Repo → Type 0
  Fetches s r gets repos = r ≡ (ok (some repos), s, gets)

  fetch_pages-Fetches :
      (org : String) (pages : List (List RepoData)) (fuel page : ℕ) (repos : List Repo)
      (s : RunState)
      → length pages < fuel
      → IsPaged org page pages
      → All (All IsComplete) pages
      → Fetches s
          (fetch_pages host org fuel page repos s)
          (requests org page pages)
          (repos ++ found_on pages)
  unfolding fetch_pages
  fetch_pages-Fetches org pages zero page repos s lt h c = absurd (omega (arith, lt))
  fetch_pages-Fetches org [] (suc fuel) page repos s lt (inl e) c = rw (append-nil repos, e) refl
  fetch_pages-Fetches org [] (suc fuel) page repos s lt (inr e) c = rw (append-nil repos, e) refl
  fetch_pages-Fetches org ([] ∷ pages) (suc fuel) page repos s lt h c = elim h [ ]
  fetch_pages-Fetches org ((d ∷ org_data) ∷ pages) (suc fuel) page repos s lt (e, h) (c, cs) =
      let whole = d ∷ org_data in
      let r =
        fetch_pages-Fetches org pages fuel (suc page) (repos ++ flat_map repos_of whole) s
          (omega (arith, lt)) h cs in
      rw (e, append_repos-ok whole repos c, r)
        (ap (λ all. (ok (some all), s, requests org page (whole ∷ pages)))
          (append_assoc repos (flat_map repos_of whole) (found_on pages)))

  module _ (fuel : ℕ) (pages_of : String → List (List RepoData)) where
    abbrev pub IsListed : String → Type 0
    IsListed org =
        (length (pages_of org) < fuel)
        × IsPaged org 1 (pages_of org)
        × All (All IsComplete) (pages_of org)

    -- The repositories on the pages of all organizations.
    abbrev pub all_repos : List String → List Repo
    all_repos = flat_map (λ org. found_on (pages_of org))

    -- Of each organization, the pages from the first on.
    abbrev pub all_requests : List String → List Call
    all_requests = flat_map (λ org. requests org 1 (pages_of org))

    pub fetch_orgs-Fetches :
        (orgs : List String) (repos : List Repo) (s : RunState)
        → All IsListed orgs
        → Fetches s
            (fetch_orgs host orgs fuel repos s)
            (all_requests orgs)
            (repos ++ all_repos orgs)
    unfolding fetch_orgs
    fetch_orgs-Fetches [] repos s h = rw append-nil refl
    fetch_orgs-Fetches (org ∷ orgs) repos s ((lt, p, c), hs) =
        let r = fetch_pages-Fetches org (pages_of org) fuel 1 repos s lt p c in
        let r' = fetch_orgs-Fetches orgs (repos ++ found_on (pages_of org)) s hs in
        rw (r, r')
          (ap (λ all. (ok (some all), s, all_requests (org ∷ orgs)))
            (append_assoc repos (found_on (pages_of org)) (all_repos orgs)))

  commands-brought :
      (repo : Repo) (path : String) (there : Bool)
      → commands host repo path there ≡ brought repo path there
  commands-brought repo path true = refl
  commands-brought repo path false = refl

  run_each :
      (cmds : List String) (s : RunState) → each (run_cmd host) cmds s ≡ (ok tt, s, map run cmds)
  run_each [] s = refl
  run_each (cmd ∷ cmds) s = rw (run_each cmds s) refl

  -- The commands for all repositories, the first of which is asked for as the n-th directory.
  abbrev pub all_commands : String → ℕ → List Repo → List String
  all_commands datadir n [] = []
  all_commands datadir n (repo ∷ repos) =
      let path = join_path (join_path datadir repo.org) (repo.name <> ".git") in
      brought repo path (host.exists n path) ++ all_commands datadir (suc n) repos

  abbrev pub asked_later : ℕ → List Repo → ℕ
  asked_later n [] = n
  asked_later n (repo ∷ repos) = asked_later (suc n) repos

  abbrev pub asked_at : ℕ → RunState → RunState
  asked_at n s = record s { asked = n }

  pub update_each :
      (datadir : String) (repos : List Repo) (s : RunState)
      → each (update_repo host datadir) repos s ≡ (
        ok tt,
        asked_at (asked_later s.asked repos) s,
        map run (all_commands datadir s.asked repos),
      )
  update_each datadir [] s = refl
  update_each datadir (repo ∷ repos) s =
      let path = repo_path_of host datadir repo in
      let cmds = brought repo path (host.exists s.asked path) in
      rw
        (
          commands-brought repo path (host.exists s.asked path),
          run_each cmds (asked_at (suc s.asked) s),
          update_each datadir repos (asked_at (suc s.asked) s),
          map-append run cmds (all_commands datadir (suc s.asked) repos),
        )
        refl
