-- ===== src/Dns/Planned.antt =====
-- `add_or_update_record` submits what is planned.
use mathlib.Core.List.{append_assoc, append-nil}
use configuration.Base.{
  ◌≡◌, refl, sym, ap, ◌∙◌, Bool, false, Option, none, some, List, [], ◌∷◌, ◌++◌, String, ok, raised,
  name_error, lookup, contains, insert, string_eq, for_each,
}
use configuration.Base.Traced.{Traced}
use configuration.Dns.Due.{last_named, last_named_lem, IsDue-changes_for}
use configuration.Dns.Records.{
  DnsRecord, RecordSet, Change, Call, change_rrsets, zone_id, old_records, changes_for, Progress,
  start_progress, Route53, add_record, submit_to, submit_all, add_or_update_record,
}
use configuration.Dns.Submitted.{Plans, nothing, also}

-- The zone of the last record.
abbrev pub last_zone_of : List DnsRecord → Option String → Option String
last_zone_of [] before = before
last_zone_of (r ∷ records) before = last_zone_of records (some (zone_id r))

module _ (r53 : Route53) (noop force : Bool) where
  record Ends (s : Progress) (records : List DnsRecord) (changes : List Change) : Type 0 where
    final : Progress
    runs : for_each (add_record r53 noop force) records s ≡ ok final
    set : final.change_set ≡ s.change_set ++ changes
    zone : final.last_zone ≡ last_zone_of records s.last_zone

  with_part : DnsRecord → List Change → Progress → Progress
  with_part r part s = record {
    record_names = insert r.record_name s.record_names;
    change_set = s.change_set ++ part;
    last_zone = some (zone_id r);
  }

  one_added :
      (r : DnsRecord) (s : Progress) (answer : List RecordSet) (part : List Change)
      → contains s.record_names r.record_name ≡ false
      → r53.get_all_rrsets (zone_id r) ≡ ok answer
      → changes_for force r (lookup r.record_name (old_records answer [])) ≡ ok part
      → add_record r53 noop force r s ≡ ok (with_part r part s)
  unfolding add_record with_part
  one_added r s answer part fresh a p = rw (fresh, a, p) refl

  Plans-Ends :
      (names : List String) (records : List DnsRecord) (changes : List Change) (s : Progress)
      → Plans r53 force names records changes
      → s.record_names ≡ names
      → Ends s records changes
  unfolding with_part
  Plans-Ends names _ _ s nothing same = record {
    final = s;
    runs = refl;
    set = sym (append-nil _);
    zone = refl;
  }
  Plans-Ends names _ _ s
        (also {r = r} {records = records} {answer = answer} {part = part} {changes = changes} fresh
          a p later)
        same =
      let e =
        Plans-Ends (insert r.record_name names) records changes (with_part r part s) later
          (ap (insert r.record_name) same) in
      let due =
        ap (changes_for force r) (last_named_lem r.record_name answer)
        ∙ IsDue-changes_for force r (last_named r.record_name answer) part p in
      let one =
        one_added r s answer part (ap (λ ns. contains ns r.record_name) same ∙ fresh) a due in
      record {
        final = e.final;
        runs = rw one e.runs;
        set = e.set ∙ append_assoc s.change_set part changes;
        zone = e.zone;
      }

  submit_real :
      (s : Progress) (changes : List Change) (last_zone : Option String)
      → noop ≡ false
      → s.change_set ≡ changes
      → s.last_zone ≡ last_zone
      → submit_all r53 noop force (ok s) ≡ submit_to r53 noop force last_zone changes
  submit_real s changes last_zone real set last = rw (real, set, last) refl

  -- All changes are submitted in one call, to the zone of the last record; without a record there
  -- is none, and the run ends in a `NameError`.
  abbrev pub submission : List DnsRecord → List Change → Traced Call (Unit {0})
  submission [] changes = (raised name_error, [])
  submission (r ∷ []) changes =
      (r53.submit (zone_id r) changes, change_rrsets (zone_id r) changes ∷ [])
  submission (r ∷ other ∷ records) changes = submission (other ∷ records) changes

  submit_to-submission :
      (r : DnsRecord) (records : List DnsRecord) (changes : List Change) (before : Option String)
      → submit_to r53 noop force (last_zone_of (r ∷ records) before) changes
        ≡ submission (r ∷ records) changes
  submit_to-submission r [] changes before = refl
  submit_to-submission r (other ∷ records) changes before =
      submit_to-submission other records changes (some (zone_id r))

  -- If the changes are planned, no two records have one name and Route 53 answers for each, then
  -- without a dry run exactly these changes are submitted, in one call and to the zone of the last
  -- record, and what Route 53 says to that is the result. With no record at all nothing is
  -- submitted and the run ends in a `NameError`.
  pub add_or_update_record-submit_to :
      (dns_records : List DnsRecord) (changes : List Change)
      → Plans r53 force [] dns_records changes
      → noop ≡ false
      → add_or_update_record r53 noop force dns_records ≡ submission dns_records changes
  unfolding add_or_update_record
  add_or_update_record-submit_to dns_records changes plans real =
      let e = Plans-Ends [] dns_records changes start_progress plans refl in
      rw e.runs (submit_real e.final changes (last_zone_of dns_records none) real e.set e.zone)
      ∙ submitted dns_records
    where
      submitted :
          (records : List DnsRecord)
          → submit_to r53 noop force (last_zone_of records none) changes
            ≡ submission records changes
      submitted [] = refl
      submitted (r ∷ records) = submit_to-submission r records changes none
