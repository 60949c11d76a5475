-- ===== src/Volumes/Tests.antt =====
-- Runs of util/vpc-tools/tag-old-ebs.py, and its theorems at a volume that is read and tagged.
use configuration.Base.{
  ℕ, inl, arith, ◌≡◌, refl, true, false, some, List, [], ◌∷◌, String, ◌==◌, string_eq, ltb, Result,
  ok, raised, key_error, index_error, value_error, other_error,
}
use configuration.Volumes.Disk.{
  Netaddr, Mapping, Disk, tags_for_hostname, potential_devices, get_tags_for_disk,
}
use configuration.Volumes.Run.{
  Volume, Args, Call, attach, detach, sleep, mount, umount, add_tag, add_tags, Host, turns,
  wait_attached, release, tag_devices, tag_volume, main,
}
use configuration.Volumes.Mounted.{left_mounted, main-EndsUnmounted}
use configuration.Volumes.Ending.{release-returns}
use configuration.Volumes.Released.{IsReleased, tag_volume-IsReleased}

program : Unit {0}
unfolding tags_for_hostname potential_devices get_tags_for_disk wait_attached release tag_devices
    tag_volume main
program = tt

abbrev netaddr : Netaddr
netaddr = record { ip_address = λ s. ok tt; is_in = λ address cidr. ok (cidr == "10.3.7") }

abbrev mapping : Mapping
mapping = record {
  cidr_second_octet = some (("3", ("environment", "prod") ∷ []) ∷ []);
  cidr_rest = some (("7", ("cluster", "worker") ∷ []) ∷ ("8", ("cluster", "app") ∷ []) ∷ []);
  cidr_first_octet = some "10";
}

run_hostname :
    tags_for_hostname netaddr mapping "ip-10-3-7-1"
    ≡ ok (("environment", "prod") ∷ ("cluster", "worker") ∷ [])
unfolding program
run_hostname = refl

run_unknown : tags_for_hostname netaddr mapping "ip-10-4" ≡ raised key_error
unfolding program
run_unknown = refl

run_short : tags_for_hostname netaddr mapping "ip-10" ≡ raised index_error
unfolding program
run_short = refl

run_devices :
    potential_devices "/dev/xvdf" ("xvda" ∷ "xvdf" ∷ "xvdf1" ∷ []) ≡ ok ("/dev/xvdf1" ∷ [])
unfolding program
run_devices = refl

run_devices_without_root :
    potential_devices "/dev/xvdf" ("xvdf1" ∷ "xvdf2" ∷ []) ≡ raised value_error
unfolding program
run_devices_without_root = refl

abbrev disk : Disk
disk = record {
  exists = λ path. true;
  is_dir = λ path. true;
  is_link = λ path. path == "/mnt/var/lib/cloud/instance";
  realpath = λ path. "/x/i-1";
  readline = λ path. ok "ip-10-3-7-1\n";
}

abbrev host_with : List String → Result (Unit {0}) → Host
host_with devices mounted = record {
  exists = λ n path. ltb n 5;
  list_dir = λ n. ok devices;
  is_attached = λ n id. ok (ltb n 5);
  attach = λ id. ok tt;
  detach = λ n id. ok tt;
  mount = λ device. mounted;
  umount = λ n. ok tt;
  add_tag = λ id. ok tt;
  disk = λ device. disk;
  netaddr = netaddr;
  mapping = mapping;
}

abbrev host : Host
host = host_with ("xvdf" ∷ []) (ok tt)

abbrev args : Args
args = record { noop = false; device = "/dev/xvdf"; mountpoint = "/mnt" }

abbrev vol : Volume
vol = record { id = "v"; tags = []; create_time = "now" }

abbrev calls_made : List Call
calls_made =
    attach "v"
    ∷ mount "/dev/xvdf" "/mnt"
    ∷ add_tags "v" (
        ("hostname", "ip-10-3-7-1")
        ∷ ("environment", "prod")
        ∷ ("cluster", "worker")
        ∷ ("instance-id", "i-1")
        ∷ ("created", "now")
        ∷ [])
    ∷ umount "/mnt"
    ∷ detach "v"
    ∷ sleep
    ∷ []

run_volume : tag_volume args host vol 0 ≡ (ok tt, 8, calls_made)
unfolding program
run_volume = refl

-- Where mounting fails, unmounting is called for all the same.
run_unmounted : tag_volume args (host_with ("xvdf" ∷ []) (raised other_error)) vol 0 ≡ (
  raised other_error,
  8,
  attach "v" ∷ mount "/dev/xvdf" "/mnt" ∷ umount "/mnt" ∷ detach "v" ∷ sleep ∷ [],
)
unfolding program
run_unmounted = refl

-- A dry run tags a volume that has several devices.
run_dry :
    (main
      (record args { noop = true })
      (host_with ("xvdf" ∷ "xvdf1" ∷ "xvdf2" ∷ []) (ok tt))
      (vol ∷ [])
      0).2
    ≡ attach "v" ∷ add_tag "v" ("/dev/xvdf1" ∷ "/dev/xvdf2" ∷ []) ∷ detach "v" ∷ sleep ∷ []
unfolding program
run_dry = refl

main-EndsUnmounted_example : left_mounted [] (main args host (vol ∷ vol ∷ []) 0).2 ≡ []
main-EndsUnmounted_example = main-EndsUnmounted args host (vol ∷ vol ∷ []) 0

tag_volume-IsReleased_example : IsReleased args host vol 8
tag_volume-IsReleased_example = tag_volume-IsReleased args host vol 0 8 calls_made refl run_volume

release-returns_example :
    (end : ℕ) × (calls : List Call) × (release args host vol turns 3 ≡ (ok tt, end, calls))
    × IsReleased args host vol end
release-returns_example =
    release-returns args host vol 5 3
      (record { attached = λ n. (ltb n 5, refl); detached = λ n. inl refl })
      (record {
        gone = λ n le. ground arith;
        available = λ n le. let past : ltb n 5 ≡ false = ground arith in rw past refl;
      })
      (omega arith)
