-- ===== src/Dns/Tests.antt =====
-- The theorems on `add_or_update_record` at two records, one of which Route 53 has with another type.
use configuration.Base.{◌≡◌, refl, false, true, some, List, [], ◌∷◌, ok, IsIn, at_front}
use configuration.Dns.Records.{
  DnsRecord, RecordSet, Change, change_rrsets, zone_id, changes_for, creation, deletion, Route53,
  add_record, add_or_update_record,
}
use configuration.Dns.Due.{new_name, replaced}
use configuration.Dns.Submitted.{Plans, nothing, also, add_or_update_record-Plans}
use configuration.Dns.Planned.{submission, add_or_update_record-submit_to}

program : Unit {0}
unfolding zone_id changes_for add_record add_or_update_record
program = tt

abbrev web : DnsRecord
web = record {
  zone_path = "/hostedzone/Z1";
  record_name = "web.org";
  record_type = "CNAME";
  record_ttl = 600;
  record_values = "elb" ∷ [];
}

abbrev forum : DnsRecord
forum = record web { record_name = "forum.org" }

abbrev old_web : RecordSet
old_web = record { name = "web.org."; type = "A"; resource_records = "1.2.3.4" ∷ [] }

abbrev zone : Route53
zone = record { get_all_rrsets = λ id. ok (old_web ∷ []); submit = λ id changes. ok tt }

abbrev changes : List Change
changes = deletion web old_web ∷ creation web ∷ creation forum ∷ []

run_records :
    add_or_update_record zone false true (web ∷ forum ∷ [])
    ≡ (ok tt, change_rrsets "Z1" changes ∷ [])
unfolding program
run_records = refl

is_submitted :
    IsIn (change_rrsets "Z1" changes) (add_or_update_record zone false true (web ∷ forum ∷ [])).1
unfolding program
is_submitted = at_front

add_or_update_record-Plans_example : Plans zone true [] (web ∷ forum ∷ []) changes × (false ≡ false)
add_or_update_record-Plans_example =
    add_or_update_record-Plans zone true false (web ∷ forum ∷ []) "Z1" changes is_submitted

planned : Plans zone true [] (web ∷ forum ∷ []) changes
unfolding program
planned =
    also {part = deletion web old_web ∷ creation web ∷ []} refl refl (replaced refl (λ there. cc))
      (also {part = creation forum ∷ []} refl refl new_name nothing)

add_or_update_record-submit_to_example :
    add_or_update_record zone false true (web ∷ forum ∷ [])
    ≡ submission zone false true (web ∷ forum ∷ []) changes
add_or_update_record-submit_to_example =
    add_or_update_record-submit_to zone false true (web ∷ forum ∷ []) changes planned refl

web_changes : changes_for true web (some old_web) ≡ ok (deletion web old_web ∷ creation web ∷ [])
unfolding program
web_changes = refl
