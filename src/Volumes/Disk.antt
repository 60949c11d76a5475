-- ===== src/Volumes/Disk.antt =====
-- What tag-old-ebs.py learns of a volume that is mounted.
use Prim.Native.Char.{Char, code}
use text.Mathlib.Text.{starts_with}
use configuration.Base.{
  Bool, ◌&&◌, ◌||◌, Option, none, some, List, [], ◌∷◌, String, ◌==◌, string_eq, ltb, length, select,
  map, if◌then◌else◌, Result, ok, raised, index_error, key_error, value_error, Dict, put, lookup,
  nat_beq, lstrip_by, strip_by, is_space, pieces, join_by, basename, dirname, join_path, ◌>>=◌,
}

-- `tags.update(more)`
abbrev pub update_tags : Dict String String → Dict String String → Dict String String
update_tags tags [] = tags
update_tags tags ((key, value) ∷ more) = update_tags (put key value tags) more

-- The configuration, whose keys may be missing.
pub record Mapping : Type 0 where
  pub cidr_second_octet : Option (Dict String (Dict String String))
  pub cidr_rest : Option (Dict String (Dict String String))
  pub cidr_first_octet : Option String

-- What netaddr answers: whether a text is an address, and whether an address is in a block.
pub record Netaddr : Type 0 where
  pub ip_address : String → Result (Unit {0})
  pub is_in : String → String → Result Bool

abbrev pub or_key_error {ℓ} : {A : Type ℓ} → Option A → Result A
or_key_error none = raised key_error
or_key_error (some a) = ok a

-- `octets[1]`
abbrev second_octet : List String → Result String
second_octet (first ∷ second ∷ rest) = ok second
second_octet octets = raised index_error

-- `hostname.lstrip('ip-').split('-')`
abbrev is_ip_mark : Char → Bool
is_ip_mark c = nat_beq (code c) 105 || nat_beq (code c) 112 || nat_beq (code c) 45

abbrev is_dash : Char → Bool
is_dash c = nat_beq (code c) 45

abbrev octets_of : String → List String
octets_of hostname = pieces is_dash (lstrip_by is_ip_mark hostname)

module _ (netaddr : Netaddr) (mapping : Mapping) where
  abbrev cidr_of : String → String → Result String
  cidr_of octet key =
      or_key_error mapping.cidr_first_octet >>= λ first. ok (join_by "." (first ∷ octet ∷ key ∷ []))

  abbrev rest_tags :
      String
      → String
      → Dict String (Dict String String)
      → Dict String String
      → Result (Dict String String)
  rest_tags address octet [] tags = ok tags
  rest_tags address octet ((key, value) ∷ more) tags = cidr_of octet key >>= λ cidr.
      netaddr.is_in address cidr >>= λ is_in.
      rest_tags address octet more (if is_in then update_tags tags value else tags)

  abbrev tags_for_octets : List String → Result (Dict String String)
  tags_for_octets octets = or_key_error mapping.cidr_second_octet >>= λ seconds.
      second_octet octets >>= λ octet. or_key_error (lookup octet seconds) >>= λ tags.
      netaddr.ip_address (join_by "." octets) >>= λ _. or_key_error mapping.cidr_rest >>= λ rest.
      rest_tags (join_by "." octets) octet rest (update_tags [] tags)

  unfoldable pub tags_for_hostname : String → Result (Dict String String)
  tags_for_hostname hostname =
      if starts_with hostname "ip-" then tags_for_octets (octets_of hostname) else ok []

-- `devices.remove(name)`
abbrev remove : String → List String → Result (List String)
remove name [] = raised value_error
remove name (x ∷ xs) =
    let rest = remove name xs in if x == name then ok xs else (rest >>= λ ys. ok (x ∷ ys))

-- The devices beside the root, if there are any, or else the root.
unfoldable pub potential_devices : String → List String → Result (List String)
potential_devices root_device listed =
    let devices = select (λ x. starts_with x (basename root_device)) listed in
    (if ltb 1 (length devices) then remove (basename root_device) devices else ok devices)
    >>= λ rest. ok (map (join_path (dirname root_device)) rest)

-- The files of a volume that are looked at. A file that cannot be read raises.
pub record Disk : Type 0 where
  pub exists : String → Bool
  pub is_dir : String → Bool
  pub is_link : String → Bool
  pub realpath : String → String
  pub readline : String → Result String

module _ (netaddr : Netaddr) (mapping : Mapping) (disk : Disk) (mountpoint : String) where
  abbrev edx_dir : String
  edx_dir = join_path (join_path mountpoint "edx") "app"

  abbrev hostname_file : String
  hostname_file = join_path (join_path mountpoint "etc") "hostname"

  abbrev instance_file : String
  instance_file =
      join_path (join_path (join_path (join_path mountpoint "var") "lib") "cloud") "instance"

  abbrev host_tags : String → Result (Dict String String)
  host_tags hostname =
      if disk.exists edx_dir && disk.is_dir edx_dir
      then (tags_for_hostname netaddr mapping hostname >>= λ cluster_tags.
          ok (update_tags (("hostname", hostname) ∷ []) cluster_tags))
      else ok (("hostname", hostname) ∷ ("cluster", "unknown") ∷ [])

  abbrev root_tags : Result (Dict String String)
  root_tags =
      if disk.exists hostname_file
      then (disk.readline hostname_file >>= λ line. host_tags (strip_by is_space line))
      else ok (("cluster", "unknown") ∷ [])

  unfoldable pub get_tags_for_disk : Result (Dict String String)
  get_tags_for_disk = root_tags >>= λ tag_data. ok (
      if disk.exists instance_file && disk.is_link instance_file
      then put "instance-id" (basename (disk.realpath instance_file)) tag_data
      else tag_data)
