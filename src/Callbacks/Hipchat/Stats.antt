-- ===== src/Callbacks/Hipchat/Stats.antt =====
-- What hipchat_plugin.py sends when a play starts and when the playbook ends.
use Prim.Native.String.{◌++◌ as ◌<>◌}
use configuration.Base.{
  ℕ, ◌-◌, ◌/◌, ◌%◌, Bool, true, false, not, ◌&&◌, Option, none, some, List, [], ◌∷◌, String,
  string_eq, nat_eq, ◌==◌, ltb, if◌then◌else◌, join_by, contains, show_nat, basename, root_of,
  Result, ok, raised, key_error, attribute_error, Dict, lookup, ◌>>=◌ as ◌>>>=◌,
}
use configuration.Base.Script.{Script, from, assign, when, ◌>>=◌, ◌>>◌}
use configuration.Callbacks.Hipchat.Plugin.{
  Row, Plugin, Call, Host, Play, send_hipchat, flush_last_task,
}

abbrev tags_text : List String → String
tags_text [] = ""
tags_text (tag ∷ tags) =
    if contains (tag ∷ tags) "all"
    then ""
    else " with tags <b><i>" <> join_by "," (tag ∷ tags) <> "</i></b>"

abbrev subset_text : List String → String
subset_text [] = ""
subset_text (name ∷ names) = " on hosts <b><i>" <> join_by "," (name ∷ names) <> "</i></b>"

abbrev name_of : Play → String
name_of play = root_of (basename play.filename)

abbrev start_text : String → Play → String
start_text prefix play =
    "<b>"
    <> prefix
    <> "</b>: Starting ansible run for play <b><i>"
    <> name_of play
    <> "</i></b>"
    <> tags_text play.only_tags
    <> subset_text play.subset

-- The counts of a host. What `summarize` returns has no method of that name.
pub data Stats : Type 0 where
  stats_of : (String → Dict String ℕ) → Stats
  summary : Dict String ℕ → Stats

abbrev summarize : Stats → String → Result (Dict String ℕ)
summarize (stats_of counts) name = ok (counts name)
summarize (summary counts) name = raised attribute_error

abbrev item_text : String → Option ℕ → Result String
item_text item none = raised key_error
item_text item (some n) =
    ok (if n == 0 then "" else "<b>" <> item <> "</b> - " <> show_nat n <> " ")

abbrev pub items_text : Dict String ℕ → List String → Result String
items_text counts [] = ok ""
items_text counts (item ∷ items) = item_text item (lookup item counts) >>>= λ text.
    items_text counts items >>>= λ rest. ok (text <> rest)

abbrev pub items : List String
items = "ok" ∷ "changed" ∷ "unreachable" ∷ "failures" ∷ []

-- The loop over the hosts, which assigns the counts of a host to the name of those of all.
unfoldable pub host_texts : String → Stats → List String → Result (List String)
host_texts prefix stats [] = ok []
host_texts prefix stats (name ∷ hosts) = summarize stats name >>>= λ counts.
    items_text counts items >>>= λ told. host_texts prefix (summary counts) hosts >>>= λ rest.
    ok (("<b>" <> prefix <> "</b>: <i>" <> name <> "</i> - " <> told) ∷ rest)

abbrev two_digits : ℕ → String
two_digits n = (if ltb n 10 then "0" else "") <> show_nat n

abbrev name_text : Option String → String
name_text none = "None"
name_text (some s) = s

abbrev pub end_text : Plugin → ℕ → String
end_text self delta =
    "<b>"
    <> self.hipchat_msg_prefix
    <> "</b>: Finished Ansible run for <b><i>"
    <> name_text self.playbook_name
    <> "</i> in "
    <> two_digits (delta / 60000000)
    <> " minutes, "
    <> two_digits (delta / 1000000 % 60)
    <> " seconds</b><br /><br />"

abbrev bool_text : Bool → String
bool_text true = "True"
bool_text false = "False"

-- A condensed report leaves out tasks that changed nothing in less than a second.
abbrev is_left_out : Bool → Row → Bool
is_left_out condensed row = condensed && not row.changed && ltb row.delta 10

abbrev cells : Row → List String
cells row =
    row.task
    ∷ (show_nat (row.delta / 10) <> "." <> show_nat (row.delta % 10))
    ∷ show_nat row.count
    ∷ bool_text row.changed
    ∷ []

unfoldable pub table_rows : Bool → List Row → List (List String)
table_rows condensed [] = []
table_rows condensed (row ∷ rows) =
    let rest = table_rows condensed rows in
    if is_left_out condensed row then rest else cells row ∷ rest

abbrev pub report_text : (String → List (List String) → String) → Plugin → String
report_text table self =
    "/code "
    <> table (self.hipchat_msg_prefix <> " - Task")
        (table_rows self.condensed_task_report self.task_report)

module _ (host : Host) where
  abbrev playing : String → ℕ → Plugin → Plugin
  playing name now self = record self { start_time = now; playbook_name = some name }

  unfoldable pub playbook_on_play_start : Play → ℕ → Script Plugin Call (Unit {0})
  playbook_on_play_start play now self =
      when self.enabled
        (assign (playing (name_of play) now)
          >> send_hipchat host (start_text self.hipchat_msg_prefix play) "" "html")
        self

  module _ (table : String → List (List String) → String) where
    abbrev pub send_report : Plugin → Script Plugin Call (Unit {0})
    send_report self = send_hipchat host (report_text table self) "" "text"

    abbrev pub send_hosts : List String → Script Plugin Call (Unit {0})
    send_hosts texts = send_hipchat host (join_by "<br />" texts) "" "html"

    abbrev pub at_time : ℕ → Plugin → Plugin
    at_time now self = record (flush_last_task host self) { start_time = now }

    abbrev pub report_all : Stats → List String → ℕ → Plugin → Script Plugin Call (Unit {0})
    report_all stats hosts now self =
        assign (at_time now)
        >> send_report (flush_last_task host self)
        >> (from (host_texts self.hipchat_msg_prefix stats hosts) >>= send_hosts)
        >> send_hipchat host (end_text self (now - self.start_time)) "" "html"

    -- The table of the report is a parameter; the hosts are sorted.
    unfoldable pub playbook_on_stats : Stats → List String → ℕ → Script Plugin Call (Unit {0})
    playbook_on_stats stats hosts now self =
        when self.enabled (report_all stats hosts now self) self
