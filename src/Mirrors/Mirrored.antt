-- ===== src/Mirrors/Mirrored.antt =====
-- A first run of repos_from_orgs.py that updates the mirrors.
use mathlib.Core.Path.{subst}
use mathlib.Core.List.{append_assoc, append-nil}
use configuration.Base.{
  ℕ, true, false, none, some, ◌≡◌, refl, sym, List, [], ◌∷◌, ◌++◌, map, String, is_empty, ok, All,
}
use configuration.Mirrors.Run.{
  RepoData, Repo, Call, write_repos, run, RunState, Host, cached, refresh_from, refresh_cache,
  update_repos, mirror, main,
}
use configuration.Mirrors.Paged.{
  IsListed, all_requests, all_repos, all_commands, asked_later, asked_at, fetch_orgs-Fetches,
  update_each,
}

abbrev pub at_first : ℕ → RunState
at_first n = record { repos_json = none; asked = n }

module _ (host : Host) (fuel : ℕ) (pages_of : String → List (List RepoData))
    (orgs : List String) where
  abbrev all : List Repo
  all = all_repos host fuel pages_of orgs

  abbrev gets : List Call
  gets = all_requests host fuel pages_of orgs

  refresh_from-ok :
      (s : RunState)
      → All (IsListed host fuel pages_of) orgs
      → refresh_from host (some orgs) fuel s
        ≡ (ok true, cached host all s, gets ++ write_repos (host.dumps all) ∷ [])
  refresh_from-ok s h = let r = fetch_orgs-Fetches host fuel pages_of orgs [] s h in rw r refl

  refresh_cache-ok :
      (s : RunState)
      → host.orgs ≡ some orgs
      → All (IsListed host fuel pages_of) orgs
      → refresh_cache host fuel s
        ≡ (ok true, cached host all s, gets ++ write_repos (host.dumps all) ∷ [])
  unfolding refresh_cache
  refresh_cache-ok s read h =
      subst
        (λ given.
          refresh_from host given fuel s
          ≡ (ok true, cached host all s, gets ++ write_repos (host.dumps all) ∷ []))
        (sym read) (refresh_from-ok s h)

  update_repos-ok :
      (datadir : String) (s : RunState)
      → host.loads (host.dumps all) ≡ ok all
      → update_repos host datadir (cached host all s) ≡ (
        ok tt,
        asked_at host (asked_later host s.asked all) (cached host all s),
        map run (all_commands host datadir s.asked all),
      )
  unfolding update_repos
  update_repos-ok datadir s e = rw (e, update_each host datadir all (cached host all s)) refl

  mirror-ok :
      (datadir : String) (n : ℕ)
      → host.orgs ≡ some orgs
      → All (IsListed host fuel pages_of) orgs
      → host.loads (host.dumps all) ≡ ok all
      → is_empty datadir ≡ false
      → ((mirror host (some datadir) fuel (at_first n)).0 ≡ ok true)
        × ((mirror host (some datadir) fuel (at_first n)).2
            ≡ gets ++ write_repos (host.dumps all) ∷ map run (all_commands host datadir n all))
  mirror-ok datadir n read h e full =
      let r = refresh_cache-ok (at_first n) read h in
      let u = update_repos-ok datadir (at_first n) e in
      (rw (full, r, u) refl, rw (full, r, u, append-nil, append_assoc) refl)

-- If the lock is free, the organizations can be read, the pages of each end before the bound and
-- their repositories are complete, and JSON gives back what was written, then a first run without
-- --refresh asks for the pages of each organization from 1 to the first that is empty, writes the
-- list of the repositories on them, in their order, and then, for each of them, fetches it if its
-- directory is there, and otherwise makes the directory and clones it, and updates the server info.
pub main-mirrors :
    (host : Host) (fuel : ℕ) (pages_of : String → List (List RepoData)) (orgs : List String)
    (datadir : String) (n : ℕ)
    → host.lock "" ≡ true
    → host.orgs ≡ some orgs
    → All (IsListed host fuel pages_of) orgs
    → host.loads (host.dumps (all_repos host fuel pages_of orgs))
      ≡ ok (all_repos host fuel pages_of orgs)
    → is_empty datadir ≡ false
    → let repos = all_repos host fuel pages_of orgs in
      let (result, s, calls) =
        main host (record { refresh = false; datadir = some datadir }) fuel (at_first n) in
      (result ≡ ok true)
      × (calls
          ≡ all_requests host fuel pages_of orgs
            ++ write_repos (host.dumps repos) ∷ map run (all_commands host datadir n repos))
unfolding main
main-mirrors host fuel pages_of orgs datadir n free read h e full =
    let (r, c) = mirror-ok host fuel pages_of orgs datadir n read h e full in (rw free r, rw free c)
