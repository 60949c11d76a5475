-- ===== src/Callbacks/Hipchat/Ended.antt =====
-- How hipchat_plugin.py ends where there is more than one host.
use configuration.Base.{
  ℕ, true, ◌≡◌, refl, ap, ◌∙◌, List, [], ◌∷◌, String, ok, raised, attribute_error, Dict,
}
use configuration.Base.Script.Calls.{when-true}
use configuration.Base.Script.Caught.{IsCaught}
use configuration.Callbacks.Hipchat.Plugin.{Plugin, Call, Host, room_call, flush_last_task}
use configuration.Callbacks.Hipchat.Stats.{
  stats_of, host_texts, items_text, items, report_text, report_all, at_time, playbook_on_stats,
}
use configuration.Callbacks.Hipchat.Reported.{send_hipchat-ok}

host_texts-raised :
    (prefix : String) (counts : String → Dict String ℕ) (name other : String) (hosts : List String)
    (text : String)
    → items_text (counts name) items ≡ ok text
    → host_texts prefix (stats_of counts) (name ∷ other ∷ hosts) ≡ raised attribute_error
unfolding host_texts
host_texts-raised prefix counts name other hosts text e = rw e refl

module _ (host : Host) (table : String → List (List String) → String) where
  -- The message that has the report of the tasks.
  abbrev pub report_call : Plugin → Call
  report_call self = room_call host (report_text table (flush_last_task host self)) "" "text" self

  report_all-raised :
      (counts : String → Dict String ℕ) (name other : String) (hosts : List String) (text : String)
      (now : ℕ) (self : Plugin)
      → ((call : Call) → IsCaught (host.send call))
      → items_text (counts name) items ≡ ok text
      → report_all host table (stats_of counts) (name ∷ other ∷ hosts) now self self
        ≡ (raised attribute_error, at_time host table now self, report_call self ∷ [])
  unfolding flush_last_task
  report_all-raised counts name other hosts text now self h e =
      rw
        (
          send_hipchat-ok host (report_text table (flush_last_task host self)) "" "text"
              (at_time host table now self) h,
          host_texts-raised self.hipchat_msg_prefix counts name other hosts text e,
        )
        refl

-- If the plugin is enabled, what hipchat raises is an `Exception` and the counts of the first of
-- several hosts are there, `playbook_on_stats` sends the report of the tasks, and then raises an
-- `AttributeError` in place of sending anything of the hosts.
pub playbook_on_stats-raised :
    (host : Host) (table : String → List (List String) → String) (counts : String → Dict String ℕ)
    (name other : String) (hosts : List String) (text : String) (now : ℕ) (self : Plugin)
    → self.enabled ≡ true
    → ((call : Call) → IsCaught (host.send call))
    → items_text (counts name) items ≡ ok text
    → let (result, end, calls) =
        playbook_on_stats host table (stats_of counts) (name ∷ other ∷ hosts) now self in
      (result ≡ raised attribute_error) × (calls ≡ report_call host table self ∷ [])
unfolding playbook_on_stats
playbook_on_stats-raised host table counts name other hosts text now self on h e =
    let report = report_all host table (stats_of counts) (name ∷ other ∷ hosts) now self in
    let whole =
      when-true report self self.enabled on
      ∙ report_all-raised host table counts name other hosts text now self h e in
    (ap (λ r. r.0) whole, ap (λ r. r.2) whole)
