-- ===== src/Dns/Due.antt =====
-- Which changes util/vpc-tools/vpc_dns.py owes to a record, by what Route 53 has under its name.
use Prim.Native.String.{◌++◌ as ◌<>◌}
use mathlib.Core.Path.{subst}
use configuration.Base.{
  ◌≡◌, refl, sym, ap, ◌∙◌, Bool, true, false, Option, none, some, List, [], ◌∷◌, String, ◌==◌,
  string_eq, eq_iff, if◌then◌else◌, ok, raised, runtime_error, arith, inl, inr, lookup, put,
  lookup-put, Dict, Bool-cases,
}
use configuration.Dns.Records.{
  DnsRecord, RecordSet, Change, create, delete, drop_last, old_records, is_identical, changes_for,
}

abbrev or_before : Option RecordSet → Option RecordSet → Option RecordSet
or_before none before = before
or_before (some old) before = some old

-- The last of the record sets that has a name before its dot.
abbrev pub last_named : String → List RecordSet → Option RecordSet
last_named name [] = none
last_named name (old ∷ answer) =
    or_before (last_named name answer) (if drop_last old.name == name then some old else none)

or_before_assoc :
    (a b c : Option RecordSet) → or_before a (or_before b c) ≡ or_before (or_before a b) c
or_before_assoc none b c = refl
or_before_assoc (some old) b c = refl

or_before-none : (a : Option RecordSet) → or_before a none ≡ a
or_before-none none = refl
or_before-none (some old) = refl

or_before-if :
    (b : Bool) (old : RecordSet) (before : Option RecordSet)
    → or_before (if b then some old else none) before ≡ (if b then some old else before)
or_before-if true old before = refl
or_before-if false old before = refl

lookup-old_records :
    (name : String) (answer : List RecordSet) (found : Dict String RecordSet)
    → lookup name (old_records answer found)
      ≡ or_before (last_named name answer) (lookup name found)
lookup-old_records name [] found = refl
lookup-old_records name (old ∷ answer) found =
    lookup-old_records name answer (put (drop_last old.name) old found)
    ∙ (ap (or_before (last_named name answer)) (
          lookup-put (drop_last old.name) name old found
          ∙ sym (or_before-if (drop_last old.name == name) old (lookup name found)))
        ∙ or_before_assoc (last_named name answer)
            (if drop_last old.name == name then some old else none) (lookup name found))

pub last_named_lem :
    (name : String) (answer : List RecordSet)
    → lookup name (old_records answer []) ≡ last_named name answer
last_named_lem name answer = lookup-old_records name answer [] ∙ or_before-none _

-- It has the record's name with a dot, and its type.
abbrev pub HasRecord : DnsRecord → RecordSet → Type 0
HasRecord r old = (old.name ≡ r.record_name <> ".") × (old.type ≡ r.record_type)

abbrev pub creating : DnsRecord → Change
creating r = record {
  action = create;
  name = r.record_name;
  type = r.record_type;
  ttl = r.record_ttl;
  values = r.record_values;
}

-- The deletion has the values of the old record set, and all else of the new record.
abbrev pub deleting : DnsRecord → RecordSet → Change
deleting r old = record {
  action = delete;
  name = r.record_name;
  type = r.record_type;
  ttl = r.record_ttl;
  values = old.resource_records;
}

module _ (force : Bool) (r : DnsRecord) where
  pub data IsDue : Option RecordSet → List Change → Type 0 where
    new_name : IsDue none (creating r ∷ [])
    in_place : {old : RecordSet} → HasRecord r old → IsDue (some old) []
    replaced :
        {old : RecordSet}
        → force ≡ true
        → (HasRecord r old → ⊥)
        → IsDue (some old) (deleting r old ∷ creating r ∷ [])

  identical-HasRecord : (old : RecordSet) → is_identical r old ≡ true → HasRecord r old
  identical-HasRecord old same = (
    ground (arith, eq_iff (r.record_name <> ".") old.name, eq_iff r.record_type old.type),
    ground (arith, eq_iff (r.record_name <> ".") old.name, eq_iff r.record_type old.type),
  )

  HasRecord-identical : (old : RecordSet) → HasRecord r old → is_identical r old ≡ true
  HasRecord-identical old (named, typed) =
      let name_eq = (string_eq.beq_iff (r.record_name <> ".") old.name).1 (sym named) in
      let type_eq = (string_eq.beq_iff r.record_type old.type).1 (sym typed) in
      rw (name_eq, type_eq) refl

  pub changes_for-IsDue :
      (old : Option RecordSet) (changes : List Change)
      → changes_for force r old ≡ ok changes
      → IsDue old changes
  unfolding changes_for
  changes_for-IsDue none changes h =
      let same : creating r ∷ [] ≡ changes = cc in subst (IsDue none) same new_name
  changes_for-IsDue (some old) changes h = elim (Bool-cases (is_identical r old)) [
    | inl there ↦
        let q : ok [] ≡ ok changes = rw there at h in
        let same : [] ≡ changes = cc in
        subst (IsDue (some old)) same (in_place (identical-HasRecord old there))
    | inr other ↦ elim (Bool-cases force) [
      | inl forced ↦
          let q : ok (deleting r old ∷ creating r ∷ []) ≡ ok changes = rw (other, forced) at h in
          let same : deleting r old ∷ creating r ∷ [] ≡ changes = cc in
          subst (IsDue (some old)) same (
            replaced forced (λ there.
              let yes = HasRecord-identical old there in
              let q : true ≡ false = sym yes ∙ other in cc q))
      | inr unforced ↦
          let q : raised runtime_error ≡ ok changes = rw (other, unforced) at h in absurd (cc q)
    ]
  ]

  pub IsDue-changes_for :
      (old : Option RecordSet) (changes : List Change)
      → IsDue old changes
      → changes_for force r old ≡ ok changes
  unfolding changes_for
  IsDue-changes_for _ _ new_name = refl
  IsDue-changes_for _ _ (in_place {old = old} there) = rw (HasRecord-identical old there) refl
  IsDue-changes_for _ _ (replaced {old = old} forced other) =
      elim (Bool-cases (is_identical r old)) [
        | inl same ↦ absurd (other (identical-HasRecord old same))
        | inr differs ↦ rw (differs, forced) refl
      ]
