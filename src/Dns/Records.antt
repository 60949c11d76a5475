-- ===== src/Dns/Records.antt =====
-- `add_or_update_record` of util/vpc-tools/vpc_dns.py. What boto's `get_all_rrsets` answers is a
-- parameter; the call that submits the changes is recorded. What is printed is left out.
use Prim.Native.String.{◌++◌ as ◌<>◌}
use text.Mathlib.Text.{starts_with}
use configuration.Base.{
  ℕ, zero, suc, Bool, ◌&&◌, Option, none, some, List, [], ◌∷◌, ◌++◌, String, ◌==◌, string_eq,
  if◌then◌else◌, Result, ok, raised, runtime_error, system_exit, name_error, Dict, lookup, put,
  contains, insert, ◌>>=◌, for_each,
}
use configuration.Base.Traced.{Traced, from, perform}

pub record DnsRecord : Type 0 where
  pub zone_path : String
  pub record_name : String
  pub record_type : String
  pub record_ttl : ℕ
  pub record_values : List String

-- A record set that Route 53 has: its name ends with a dot.
pub record RecordSet : Type 0 where
  pub name : String
  pub type : String
  pub resource_records : List String

pub data Action : Type 0 where
  create delete : Action

pub record Change : Type 0 where
  pub action : Action
  pub name : String
  pub type : String
  pub ttl : ℕ
  pub values : List String

pub data Call : Type 0 where
  change_rrsets : String → List Change → Call
  create_hosted_zone : String → Call

-- `s.replace("/hostedzone/", "")`: at each place, so many characters are still to be left out.
abbrev without_path : ℕ → String → String
without_path k String.[] = String.[]
without_path (suc k) (String.◌∷◌ c s) = without_path k s
without_path zero (String.◌∷◌ c s) =
    let kept = without_path zero s in
    let cut = without_path 11 s in
    if starts_with (String.◌∷◌ c s) "/hostedzone/" then cut else String.◌∷◌ c kept

unfoldable pub zone_id : DnsRecord → String
zone_id record_ = without_path zero record_.zone_path

-- `r.name[:-1]`
abbrev pub drop_last : String → String
drop_last String.[] = String.[]
drop_last (String.◌∷◌ c String.[]) = String.[]
drop_last (String.◌∷◌ c (String.◌∷◌ d s)) = String.◌∷◌ c (drop_last (String.◌∷◌ d s))

abbrev pub old_records : List RecordSet → Dict String RecordSet → Dict String RecordSet
old_records [] found = found
old_records (r ∷ records) found = old_records records (put (drop_last r.name) r found)

abbrev pub creation : DnsRecord → Change
creation r = record {
  action = create;
  name = r.record_name;
  type = r.record_type;
  ttl = r.record_ttl;
  values = r.record_values;
}

-- The name, the type and the time to live are those of the new record, the values those of the old.
abbrev pub deletion : DnsRecord → RecordSet → Change
deletion r old = record {
  action = delete;
  name = r.record_name;
  type = r.record_type;
  ttl = r.record_ttl;
  values = old.resource_records;
}

abbrev pub is_identical : DnsRecord → RecordSet → Bool
is_identical r old = (r.record_name <> ".") == old.name && r.record_type == old.type

-- What one record adds to the change set, by what its name points to.
unfoldable pub changes_for : Bool → DnsRecord → Option RecordSet → Result (List Change)
changes_for force r none = ok (creation r ∷ [])
changes_for force r (some old) =
    if is_identical r old
    then ok []
    else if force
    then ok (deletion r old ∷ creation r ∷ [])
    else raised runtime_error

pub record Progress : Type 0 where
  pub record_names : List String
  pub change_set : List Change
  pub last_zone : Option String

abbrev pub start_progress : Progress
start_progress = record { record_names = []; change_set = []; last_zone = none }

pub record Route53 : Type 0 where
  pub get_all_rrsets : String → Result (List RecordSet)
  pub submit : String → List Change → Result (Unit {0})

module _ (r53 : Route53) (noop force : Bool) where
  unfoldable pub add_record : DnsRecord → Progress → Result Progress
  add_record r s = if contains s.record_names r.record_name then raised (system_exit 1) else (do
    records ← r53.get_all_rrsets (zone_id r)
    changes ← changes_for force r (lookup r.record_name (old_records records []))
    ok (record {
      record_names = insert r.record_name s.record_names;
      change_set = s.change_set ++ changes;
      last_zone = some (zone_id r);
    }))

  -- `zone_id` is that of the last record, and is not bound where there was none.
  abbrev pub submit_to : Option String → List Change → Traced Call (Unit {0})
  submit_to none changes = from (raised name_error)
  submit_to (some zone) changes = perform (change_rrsets zone changes) (r53.submit zone changes)

  abbrev pub submit_all : Result Progress → Traced Call (Unit {0})
  submit_all (raised x) = from (raised x)
  submit_all (ok s) = if noop then from (ok tt) else submit_to s.last_zone s.change_set

  unfoldable pub add_or_update_record : List DnsRecord → Traced Call (Unit {0})
  unfolding add_record
  add_or_update_record dns_records = submit_all (for_each add_record dns_records start_progress)
