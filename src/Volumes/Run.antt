-- ===== src/Volumes/Run.antt =====
-- The run of tag-old-ebs.py. What is asked of the services and of the operating system is answered by
-- the number of the question, so that each answer may be another one.
use configuration.Base.{
  ℕ, zero, suc, ◌/◌, Bool, true, false, List, [], ◌∷◌, String, string_eq, if◌then◌else◌, Result, ok,
  raised, system_exit, Dict, has_key, put, ◌>>=◌ as ◌>>>=◌,
}
use configuration.Base.Script.{
  Script, from, perform, when, each, finally, except_ec2, unless_done, ◌>>=◌, ◌>>◌,
}
use configuration.Volumes.Disk.{Netaddr, Mapping, Disk, potential_devices, get_tags_for_disk}

pub record Volume : Type 0 where
  pub id : String
  pub tags : Dict String String
  pub create_time : String

pub data Call : Type 0 where
  attach detach : String → Call
  sleep : Call
  mount : String → String → Call
  umount : String → Call
  add_tag : String → List String → Call
  add_tags : String → Dict String String → Call

pub record Args : Type 0 where
  pub noop : Bool
  pub device : String
  pub mountpoint : String

-- The answers, at each question or call.
pub record Host : Type 0 where
  pub exists : ℕ → String → Bool
  pub list_dir : ℕ → Result (List String)
  -- whether the status of the volume is not "available"
  pub is_attached : ℕ → String → Result Bool
  pub attach : String → Result (Unit {0})
  pub detach : ℕ → String → Result (Unit {0})
  pub mount : String → Result (Unit {0})
  pub umount : ℕ → Result (Unit {0})
  pub add_tag : String → Result (Unit {0})
  pub disk : String → Disk
  pub netaddr : Netaddr
  pub mapping : Mapping

abbrev pub ask {ℓ} : {A : Type ℓ} → (ℕ → Result A) → Script ℕ Call A
ask answer n = (answer n, suc n, [])

-- A call whose answer depends on when it is made.
abbrev pub act : Call → (ℕ → Result (Unit {0})) → Script ℕ Call (Unit {0})
act call answer n = (answer n, suc n, call ∷ [])

abbrev pub timeout : ℕ
timeout = 300

-- Each turn takes two seconds off.
abbrev pub turns : ℕ
turns = timeout / 2

module _ (args : Args) (host : Host) where
  abbrev pub device_exists : Script ℕ Call Bool
  device_exists = ask (λ n. ok (host.exists n args.device))

  abbrev pub volume_attached : Volume → Script ℕ Call Bool
  volume_attached vol = ask (λ n. host.is_attached n vol.id)

  abbrev pub pause : Script ℕ Call (Unit {0})
  pause = perform sleep (ok tt)

  -- The loop that waits for the device. With no turn left the process exits.
  unfoldable pub wait_attached : ℕ → Script ℕ Call (Unit {0})
  wait_attached zero = from (raised (system_exit 1))
  wait_attached (suc left) = device_exists >>= unless_done (pause >> wait_attached left)

  abbrev pub detach_volume : Volume → Script ℕ Call (Unit {0})
  detach_volume vol =
      except_ec2 (act (detach vol.id) (λ n. host.detach n vol.id)) (λ code. from (ok tt))

  abbrev pub detach_if : Volume → Bool → Script ℕ Call (Unit {0})
  detach_if vol attached = when attached (detach_volume vol)

  abbrev pub attached_unless : Volume → Bool → Script ℕ Call Bool
  attached_unless vol true = from (ok true)
  attached_unless vol false = volume_attached vol

  -- `exists(root_device) or is_attached(vol.id)`
  abbrev pub is_busy : Volume → Script ℕ Call Bool
  is_busy vol = device_exists >>= attached_unless vol

  abbrev pub turn : Volume → Script ℕ Call (Unit {0})
  turn vol = volume_attached vol >>= detach_if vol

  -- The loop of the outer `finally`.
  unfoldable pub release : Volume → ℕ → Script ℕ Call (Unit {0})
  release vol zero = from (raised (system_exit 1))
  release vol (suc left) = is_busy vol >>= λ busy. when busy (turn vol >> pause >> release vol left)

  abbrev pub tag_with : Volume → Dict String String → Script ℕ Call (Unit {0})
  tag_with vol tag_data =
      let tags = put "created" vol.create_time tag_data in
      if args.noop then from (ok tt) else perform (add_tags vol.id tags) (host.add_tag vol.id)

  abbrev pub read_disk : Volume → String → Script ℕ Call (Unit {0})
  read_disk vol device =
      perform (mount device args.mountpoint) (host.mount device)
      >> (from (get_tags_for_disk host.netaddr host.mapping (host.disk device) args.mountpoint)
          >>= tag_with vol)

  abbrev pub unmount : Script ℕ Call (Unit {0})
  unmount = act (umount args.mountpoint) host.umount

  -- Volumes with several devices are not read.
  unfoldable pub tag_devices : Volume → List String → Script ℕ Call (Unit {0})
  tag_devices vol (device ∷ []) = finally (read_disk vol device) unmount
  tag_devices vol devices = perform (add_tag vol.id devices) (host.add_tag vol.id)

  abbrev pub devices_now : Script ℕ Call (List String)
  devices_now = ask (λ n. host.list_dir n >>>= potential_devices args.device)

  abbrev pub attach_and_tag : Volume → Script ℕ Call (Unit {0})
  attach_and_tag vol =
      perform (attach vol.id) (host.attach vol.id)
      >> wait_attached turns
      >> (devices_now >>= tag_devices vol)

  unfoldable pub tag_volume : Volume → Script ℕ Call (Unit {0})
  tag_volume vol =
      if has_key "cluster" vol.tags
      then from (ok tt)
      else finally (attach_and_tag vol) (release vol turns)

  -- The loop over the volumes that no instance uses.
  unfoldable pub main : List Volume → Script ℕ Call (Unit {0})
  main potential_volumes = each tag_volume potential_volumes
