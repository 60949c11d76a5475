-- ===== src/Dns/Submitted.antt =====
-- What `add_or_update_record` submits.
use Prim.Native.String.{◌++◌ as ◌<>◌}
use mathlib.Core.Path.{subst}
use mathlib.Core.List.{append_assoc, append-nil}
use configuration.Base.{
  ◌≡◌, ◌≢◌, refl, sym, ◌∙◌, Bool, true, false, Option, none, some, List, [], ◌∷◌, ◌++◌, String,
  string_eq, eq_iff, Result, ok, raised, arith, inl, inr, ◌⊎◌, runtime_error, lookup, contains,
  insert, >>=-eq-ok, for_each, Bool-cases, IsIn, at_front, behind,
}
use configuration.Dns.Due.{last_named, last_named_lem, IsDue, changes_for-IsDue}
use configuration.Dns.Records.{
  DnsRecord, RecordSet, Change, delete, change_rrsets, zone_id, old_records, creation, deletion,
  is_identical, changes_for, Progress, start_progress, Route53, add_record, submit_to, submit_all,
  add_or_update_record,
}

only_one {ℓ} : {A : Type ℓ} {a b : A} → IsIn a (b ∷ []) → a ≡ b
only_one at_front = refl
only_one (behind i) = elim i [ ]

not_in_nil {ℓ} : {A : Type ℓ} {a : A} → IsIn a [] → ⊥
not_in_nil i = elim i [ ]

in_submit :
    (r53 : Route53) (zone : String) (changes : List Change) (last_zone : Option String)
    (all : List Change)
    → IsIn (change_rrsets zone changes) (submit_to r53 true true last_zone all).1
    → (last_zone ≡ some zone) × (all ≡ changes)
in_submit r53 zone changes none all i = elim i [ ]
in_submit r53 zone changes (some z) all i = let e = only_one i in (cc, cc)

module _ (r53 : Route53) (force : Bool) where
  -- The changes that are due for the records one after another, each by the last record set of the
  -- answer that has its name, and no record with a name that came before.
  pub data Plans : List String → List DnsRecord → List Change → Type 0 where
    nothing : {names : List String} → Plans names [] []
    also :
        {names : List String} {r : DnsRecord} {records : List DnsRecord} {answer : List RecordSet}
        {part changes : List Change}
        → contains names r.record_name ≡ false
        → r53.get_all_rrsets (zone_id r) ≡ ok answer
        → IsDue force r (last_named r.record_name answer) part
        → Plans (insert r.record_name names) records changes
        → Plans names (r ∷ records) (part ++ changes)

  record Adds (s : Progress) (records : List DnsRecord) (s' : Progress) : Type 0 where
    changes : List Change
    added : s'.change_set ≡ s.change_set ++ changes
    plans : Plans s.record_names records changes

  module _ (noop : Bool) where
    added_one :
        (r : DnsRecord) (s t : Progress)
        → add_record r53 noop force r s ≡ ok t
        → (contains s.record_names r.record_name ≡ false)
          × ((answer : List RecordSet) × (part : List Change) × (r53.get_all_rrsets (zone_id r)
                ≡ ok answer)
              × IsDue force r (last_named r.record_name answer) part
              × (t.change_set ≡ s.change_set ++ part)
              × (t.record_names ≡ insert r.record_name s.record_names))
    unfolding add_record
    added_one r s t h = elim (Bool-cases (contains s.record_names r.record_name)) [
      | inl taken ↦ absurd (ground arith)
      | inr fresh ↦
          let (answer, a, rest) = >>=-eq-ok (r53.get_all_rrsets (zone_id r)) _ (rw fresh at h) in
          let (part, p, last) =
            >>=-eq-ok (changes_for force r (lookup r.record_name (old_records answer []))) _ rest in
          let due =
            subst (λ old. IsDue force r old part) (last_named_lem r.record_name answer)
              (changes_for-IsDue force r _ part p) in
          (fresh, (answer, part, a, due, ground arith, ground arith))
    ]

    loop-Adds :
        (records : List DnsRecord) (s s' : Progress)
        → for_each (add_record r53 noop force) records s ≡ ok s'
        → Adds s records s'
    loop-Adds [] s s' h = record {
      changes = [];
      added = rw (append-nil s.change_set) (ground arith);
      plans = nothing;
    }
    loop-Adds (r ∷ records) s s' h =
        let (t, one, rest) = >>=-eq-ok (add_record r53 noop force r s) _ h in
        let (fresh, (answer, part, a, p, more, names)) = added_one r s t one in
        let later = loop-Adds records t s' rest in
        record {
          changes = part ++ later.changes;
          added = later.added ∙ rw (more, append_assoc) refl;
          plans = also fresh a p (rw (← names) later.plans);
        }

    submitted_progress :
        (result : Result Progress) (zone : String) (changes : List Change)
        → IsIn (change_rrsets zone changes) (submit_all r53 noop force result).1
        → (s : Progress) × (result ≡ ok s)
          × (noop ≡ false)
          × (s.last_zone ≡ some zone)
          × (s.change_set ≡ changes)
    submitted_progress (raised x) zone changes i = elim i [ ]
    submitted_progress (ok s) zone changes i = elim (Bool-cases noop) [
      | inl pretend ↦ absurd (not_in_nil (rw pretend at i))
      | inr real ↦
          let (zones, sets) = in_submit r53 zone changes s.last_zone s.change_set (rw real at i) in
          (s, refl, real, zones, sets)
    ]

    pub add_or_update_record-Plans :
        (dns_records : List DnsRecord) (zone : String) (changes : List Change)
        → IsIn (change_rrsets zone changes) (add_or_update_record r53 noop force dns_records).1
        → Plans [] dns_records changes × (noop ≡ false)
    unfolding add_or_update_record
    add_or_update_record-Plans dns_records zone changes i =
        let (s, all, real, zones, sets) =
          submitted_progress (for_each (add_record r53 noop force) dns_records start_progress) zone
            changes i in
        let adds = loop-Adds dns_records start_progress s all in
        let same : changes ≡ adds.changes = sym sets ∙ adds.added in (rw same adds.plans, real)

in_pair :
    (r : DnsRecord) (old : RecordSet) (c : Change)
    → IsIn c (deletion r old ∷ creation r ∷ [])
    → c.action ≡ delete
    → c ≡ deletion r old
in_pair r old c at_front d = refl
in_pair r old c (behind at_front) d = absurd (cc d)
in_pair r old c (behind (behind i)) d = elim i [ ]

other_type :
    (r : DnsRecord) (old : RecordSet)
    → is_identical r old ≡ false
    → r.record_name <> "." ≡ old.name
    → r.record_type ≢ old.type
other_type r old other dotted same =
    ground (arith, eq_iff (r.record_name <> ".") old.name, eq_iff r.record_type old.type)

changes_for_cases :
    (force : Bool) (r : DnsRecord) (old : RecordSet) (changes : List Change)
    → changes_for force r (some old) ≡ ok changes
    → (changes ≡ []) ⊎ ((is_identical r old ≡ false) × (changes ≡ deletion r old ∷ creation r ∷ []))
unfolding changes_for
changes_for_cases force r old changes h = elim (Bool-cases (is_identical r old)) [
  | inl same ↦ let q : ok [] ≡ ok changes = rw same at h in inl (ground arith)
  | inr other ↦ elim (Bool-cases force) [
    | inl forced ↦
        let q : ok (deletion r old ∷ creation r ∷ []) ≡ ok changes = rw (other, forced) at h in
        inr (other, ground arith)
    | inr unforced ↦
        let q : raised runtime_error ≡ ok changes = rw (other, unforced) at h in absurd (cc q)
  ]
]

-- Where the record set that a name points to is named with a dot at its end, the deletion that
-- `changes_for` plans asks for a type that the record set does not have, with its values.
pub changes_for-deletion :
    (force : Bool) (r : DnsRecord) (old : RecordSet) (changes : List Change) (c : Change)
    → changes_for force r (some old) ≡ ok changes
    → r.record_name <> "." ≡ old.name
    → IsIn c changes
    → c.action ≡ delete
    → (c.type ≢ old.type) × (c.values ≡ old.resource_records)
changes_for-deletion force r old changes c h dotted i d =
    elim (changes_for_cases force r old changes h) [
      | inl nothing_planned ↦ absurd (not_in_nil (rw nothing_planned at i))
      | inr (other, pair) ↦
          let e : c ≡ deletion r old = in_pair r old c (rw pair at i) d in
          rw e (other_type r old other dotted, refl)
    ]
