-- ===== src/Dns/Stack/Named.antt =====
-- The names that util/vpc-tools/vpc_dns.py gives to the load balancers and the databases of a stack.
use mathlib.Core.List.{append_assoc, append-nil}
use configuration.Base.{
  Bool, true, false, Option, none, some, ◌≡◌, refl, sym, ◌∙◌, ap, List, [], ◌∷◌, ◌++◌, select,
  String, Result, ok, raised, >>=-eq-ok, for_each, contains, IsIn, at_front, behind, ◌⊎◌, inl, inr,
  Bool-cases, string_eq, if◌then◌else◌, beq_refl,
}
use configuration.Dns.Stack.{
  Elb, Rds, Cname, NameParts, Stack, Found, is_banned, elb_cname, elb_parts, get_dns_from_instances,
  add_elb, in_vpc, rds_in_vpc, rds_cname, add_rdss, rds_cnames, nothing_found, stack_cnames,
}

add_rdss_seen :
    (zone_name endpoint : String) (parts : NameParts) (rdss : List Rds) (seen : List String)
    → contains seen endpoint ≡ true
    → add_rdss zone_name endpoint parts rdss seen ≡ []
unfolding add_rdss
add_rdss_seen zone_name endpoint parts [] seen h = refl
add_rdss_seen zone_name endpoint parts (rds ∷ rdss) seen h =
    rw (h, add_rdss_seen zone_name endpoint parts rdss seen h) refl

-- What is left after a turn that returns.
abbrev parts_left : Result Found → Option NameParts
parts_left (ok s) = s.parts
parts_left (raised x) = none

abbrev cnames_left : Result Found → List Cname
cnames_left (ok s) = s.cnames
cnames_left (raised x) = []

module _ (b : Bool) (x : Cname) (old mid new more : List Cname) where
  skipped_cname :
      b ≡ true → (if b then old else old ++ x ∷ []) ≡ mid → new ≡ mid ++ more → new ≡ old ++ more
  skipped_cname h e f = let e' : old ≡ mid = rw h at e in f ∙ ap (λ xs. xs ++ more) (sym e')

  added_cname :
      b ≡ false
      → (if b then old else old ++ x ∷ []) ≡ mid
      → new ≡ mid ++ more
      → new ≡ old ++ x ∷ more
  added_cname h e f =
      let e' : old ++ x ∷ [] ≡ mid = rw h at e in
      rw (f ∙ ap (λ xs. xs ++ more) (sym e'), append_assoc) refl

module _ (stack : Stack) (zone_name : String) where
  -- The records of load balancers: one for each that is not on the ban list, under its own play or
  -- the play that its name calls for, all with the tags of an instance.
  pub data Names : List Elb → List Cname → Type 0 where
    no_more : Names [] []
    banned :
        (elb : Elb) (parts : NameParts) {elbs : List Elb} {cnames : List Cname}
        → get_dns_from_instances stack elb ≡ ok parts
        → is_banned elb ≡ true
        → Names elbs cnames
        → Names (elb ∷ elbs) cnames
    named :
        (elb : Elb) (parts : NameParts) {elbs : List Elb} {cnames : List Cname}
        → get_dns_from_instances stack elb ≡ ok parts
        → is_banned elb ≡ false
        → Names elbs cnames
        → Names (elb ∷ elbs) (elb_cname zone_name elb parts ∷ cnames)

  -- The records of databases: none, or one with the endpoint of the first and the environment and
  -- the deployment of a load balancer.
  abbrev pub NamesFirst : List Elb → List Rds → List Cname → Type 0
  NamesFirst elbs [] cnames = cnames ≡ []
  NamesFirst elbs (rds ∷ rdss) cnames =
      (elb : Elb) × (parts : NameParts) × IsIn elb elbs
      × (get_dns_from_instances stack elb ≡ ok parts)
      × (cnames ≡ rds_cname zone_name rds.endpoint (elb_parts elb parts) ∷ [])

  -- The tags that are left are those from before or of one of the load balancers.
  abbrev IsLeft : List Elb → Found → Found → Type 0
  IsLeft elbs s s' =
      (s'.parts ≡ s.parts)
      ⊎ ((elb : Elb) × (parts : NameParts) × IsIn elb elbs
          × (get_dns_from_instances stack elb ≡ ok parts)
          × (s'.parts ≡ some (elb_parts elb parts)))

  IsLeft-from :
      (elb : Elb) (parts : NameParts) (elbs : List Elb) (s t s' : Found)
      → get_dns_from_instances stack elb ≡ ok parts
      → some (elb_parts elb parts) ≡ t.parts
      → IsLeft elbs t s'
      → IsLeft (elb ∷ elbs) s s'
  IsLeft-from elb parts elbs s t s' tags here (inl same) =
      inr (elb, parts, at_front, tags, same ∙ sym here)
  IsLeft-from elb parts elbs s t s' tags here (inr (elb_2, parts_2, place, tags_2, same)) =
      inr (elb_2, parts_2, behind place, tags_2, same)

  add_elbs-Names :
      (elbs : List Elb) (s s' : Found)
      → for_each (add_elb stack zone_name) elbs s ≡ ok s'
      → (cnames : List Cname) × Names elbs cnames
        × (s'.cnames ≡ s.cnames ++ cnames)
        × IsLeft elbs s s'
  unfolding add_elb
  add_elbs-Names [] s s' e =
      let same : s ≡ s' = cc in ([], no_more, rw same (sym (append-nil _)), inl (rw same refl))
  add_elbs-Names (elb ∷ elbs) s s' e =
      let (t, first, later) =
        >>=-eq-ok (add_elb stack zone_name elb s) (for_each (add_elb stack zone_name) elbs) e in
      let (parts, tags, made) = >>=-eq-ok (get_dns_from_instances stack elb) _ first in
      let (cnames, names, rest, left) = add_elbs-Names elbs t s' later in
      let kept = IsLeft-from elb parts elbs s t s' tags (ap parts_left made) left in
      let before = ap cnames_left made in
      elim (Bool-cases (is_banned elb)) [
        | inl skipped ↦ (
          cnames,
          banned elb parts tags skipped names,
          skipped_cname (is_banned elb) (elb_cname zone_name elb parts) s.cnames t.cnames s'.cnames
              cnames skipped before rest,
          kept,
        )
        | inr shown ↦ (
          elb_cname zone_name elb parts ∷ cnames,
          named elb parts tags shown names,
          added_cname (is_banned elb) (elb_cname zone_name elb parts) s.cnames t.cnames s'.cnames
              cnames shown before rest,
          kept,
        )
      ]

  rds_cnames-NamesFirst :
      (elbs : List Elb) (parts : Option NameParts) (rdss : List Rds) (back : List Cname)
      → ((parts ≡ none)
          ⊎ ((elb : Elb) × (own : NameParts) × IsIn elb elbs
              × (get_dns_from_instances stack elb ≡ ok own)
              × (parts ≡ some (elb_parts elb own))))
      → rds_cnames zone_name parts rdss ≡ ok back
      → NamesFirst elbs rdss back
  unfolding add_rdss
  rds_cnames-NamesFirst elbs parts [] back left e = cc
  rds_cnames-NamesFirst elbs none (rds ∷ rdss) back left e = absurd (cc e)
  rds_cnames-NamesFirst elbs (some parts) (rds ∷ rdss) back (inl none_left) e =
      absurd (cc none_left)
  rds_cnames-NamesFirst elbs (some parts) (rds ∷ rdss) back (inr (elb, own, place, tags, same)) e =
      let own_parts : parts ≡ elb_parts elb own = cc in
      let once =
        add_rdss_seen zone_name rds.endpoint parts rdss (rds.endpoint ∷ []) (rw beq_refl refl) in
      let only : rds_cname zone_name rds.endpoint parts
            ∷ add_rdss zone_name rds.endpoint parts rdss (rds.endpoint ∷ [])
          ≡ back =
        cc in
      let one : rds_cname zone_name rds.endpoint parts ∷ [] ≡ back = rw once at only in
      (elb, own, place, tags, sym one ∙ ap (λ p. rds_cname zone_name rds.endpoint p ∷ []) own_parts)

  -- Where the names of a stack are found, they are those of its load balancers that are not on the
  -- ban list, one each, and then, if the stack has a database, one more for the first database
  -- alone, with the environment and the deployment of one of the load balancers.
  pub stack_cnames-Names :
      (vpc_id : Option String) (cnames : List Cname)
      → stack_cnames stack vpc_id zone_name ≡ ok cnames
      → (elbs : List Elb) × (rdss : List Rds) × (front : List Cname) × (back : List Cname)
        × (stack.load_balancers ≡ ok elbs)
        × (stack.databases ≡ ok rdss)
        × Names (select (in_vpc vpc_id) elbs) front
        × NamesFirst (select (in_vpc vpc_id) elbs) (select (rds_in_vpc vpc_id) rdss) back
        × (cnames ≡ front ++ back)
  unfolding stack_cnames
  stack_cnames-Names vpc_id cnames e =
      let (elbs, found_elbs, e_1) = >>=-eq-ok stack.load_balancers _ e in
      let (s, added, e_2) =
        >>=-eq-ok (for_each (add_elb stack zone_name) (select (in_vpc vpc_id) elbs) nothing_found) _
          e_1 in
      let (rdss, found_rdss, e_3) = >>=-eq-ok stack.databases _ e_2 in
      let (back, more, e_4) =
        >>=-eq-ok (rds_cnames zone_name s.parts (select (rds_in_vpc vpc_id) rdss)) _ e_3 in
      let (front, names, all_names, left) =
        add_elbs-Names (select (in_vpc vpc_id) elbs) nothing_found s added in
      let ends : s.cnames ++ back ≡ cnames = cc in
      (
        elbs,
        rdss,
        front,
        back,
        found_elbs,
        found_rdss,
        names,
        rds_cnames-NamesFirst (select (in_vpc vpc_id) elbs) s.parts
            (select (rds_in_vpc vpc_id) rdss) back left more,
        sym ends ∙ ap (λ xs. xs ++ back) all_names,
      )
