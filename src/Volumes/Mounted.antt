-- ===== src/Volumes/Mounted.antt =====
-- What is mounted and unmounted in a run of tag-old-ebs.py.
use configuration.Base.{
  ℕ, zero, suc, Bool, true, false, ◌≡◌, refl, ◌∙◌, ap, List, [], ◌∷◌, ◌++◌, String, string_eq,
  Result, ok, raised, All, if◌then◌else◌, beq_refl, ◌==◌, Dict, put, has_key, Bool-cases, inl, inr,
}
use configuration.Base.Script.{
  Run, Script, from, perform, when, each, finally, continue, unless_done, ◌>>=◌, ◌>>◌,
}
use configuration.Base.Script.Calls.{close-calls}
use configuration.Base.Script.Keeps.{
  Keeps, Keeps-if, Keeps->>=, Keeps-when, Keeps-unless_done, Keeps-except_ec2,
}
use configuration.Volumes.Disk.{get_tags_for_disk}
use configuration.Volumes.Run.{
  Volume, Call, attach, detach, sleep, mount, umount, add_tag, add_tags, Args, Host, ask, act,
  turns, device_exists, volume_attached, pause, wait_attached, detach_volume, detach_if,
  attached_unless, is_busy, turn, release, read_disk, unmount, tag_devices, devices_now,
  attach_and_tag, tag_volume, main, tag_with,
}

-- A mount less at a mountpoint.
abbrev pub without : String → List String → List String
without mountpoint [] = []
without mountpoint (other ∷ mounted) =
    let rest = without mountpoint mounted in if other == mountpoint then mounted else other ∷ rest

-- The mountpoints that are still in use after some calls, each as often as something is mounted
-- there.
abbrev pub left_mounted : List String → List Call → List String
left_mounted mounted [] = mounted
left_mounted mounted (mount device mountpoint ∷ calls) = left_mounted (mountpoint ∷ mounted) calls
left_mounted mounted (umount mountpoint ∷ calls) = left_mounted (without mountpoint mounted) calls
left_mounted mounted (attach id ∷ calls) = left_mounted mounted calls
left_mounted mounted (detach id ∷ calls) = left_mounted mounted calls
left_mounted mounted (sleep ∷ calls) = left_mounted mounted calls
left_mounted mounted (add_tag id devices ∷ calls) = left_mounted mounted calls
left_mounted mounted (add_tags id tags ∷ calls) = left_mounted mounted calls

left_mounted-append :
    (mounted : List String) (xs ys : List Call)
    → left_mounted mounted (xs ++ ys) ≡ left_mounted (left_mounted mounted xs) ys
left_mounted-append mounted [] ys = refl
left_mounted-append mounted (mount device mountpoint ∷ xs) ys =
    left_mounted-append (mountpoint ∷ mounted) xs ys
left_mounted-append mounted (umount mountpoint ∷ xs) ys =
    left_mounted-append (without mountpoint mounted) xs ys
left_mounted-append mounted (attach id ∷ xs) ys = left_mounted-append mounted xs ys
left_mounted-append mounted (detach id ∷ xs) ys = left_mounted-append mounted xs ys
left_mounted-append mounted (sleep ∷ xs) ys = left_mounted-append mounted xs ys
left_mounted-append mounted (add_tag id devices ∷ xs) ys = left_mounted-append mounted xs ys
left_mounted-append mounted (add_tags id tags ∷ xs) ys = left_mounted-append mounted xs ys

-- A call that neither mounts nor unmounts.
abbrev IsQuiet : Call → Type 0
IsQuiet c = (mounted : List String) → left_mounted mounted (c ∷ []) ≡ mounted

quiet-left_mounted :
    (mounted : List String) (calls : List Call)
    → All IsQuiet calls
    → left_mounted mounted calls ≡ mounted
quiet-left_mounted mounted [] h = refl
quiet-left_mounted mounted (c ∷ calls) (h, hs) =
    left_mounted-append mounted (c ∷ []) calls
    ∙ (ap (λ b. left_mounted b calls) (h mounted) ∙ quiet-left_mounted mounted calls hs)

module _ {A : Type 0} where
  -- It leaves nothing mounted, whatever is raised in it.
  abbrev pub EndsUnmounted : Script ℕ Call A → Type 0
  EndsUnmounted m = (n : ℕ) → left_mounted [] (m n).2 ≡ []

  abbrev Quiet : Script ℕ Call A → Type 0
  Quiet = Keeps IsQuiet (λ n. tt {0})

  Quiet-EndsUnmounted : (m : Script ℕ Call A) → Quiet m → EndsUnmounted m
  Quiet-EndsUnmounted m h n = quiet-left_mounted [] (m n).2 (h n).1

module _ {A B : Type 0} where
  continue-EndsUnmounted :
      (next : A → Script ℕ Call B) (r : Run ℕ Call A)
      → left_mounted [] r.2 ≡ []
      → ((a : A) → EndsUnmounted (next a))
      → left_mounted [] (continue next r).2 ≡ []
  continue-EndsUnmounted next (ok a, s, calls) h k =
      left_mounted-append [] calls (next a s).2 ∙ (ap (λ b. left_mounted b (next a s).2) h ∙ k a s)
  continue-EndsUnmounted next (raised e, s, calls) h k = h

  continue-left_mounted :
      (next : A → Script ℕ Call B) (r : Run ℕ Call A)
      → ((a : A) → Quiet (next a))
      → left_mounted [] (continue next r).2 ≡ left_mounted [] r.2
  continue-left_mounted next (ok a, s, calls) k =
      left_mounted-append [] calls (next a s).2
      ∙ quiet-left_mounted (left_mounted [] calls) (next a s).2 (k a s).1
  continue-left_mounted next (raised e, s, calls) k = refl

  EndsUnmounted->>= :
      (m : Script ℕ Call A) (next : A → Script ℕ Call B)
      → EndsUnmounted m
      → ((a : A) → EndsUnmounted (next a))
      → EndsUnmounted (m >>= next)
  EndsUnmounted->>= m next h k n = continue-EndsUnmounted next (m n) (h n) k

  Quiet->>= :
      (m : Script ℕ Call A) (next : A → Script ℕ Call B)
      → Quiet m
      → ((a : A) → Quiet (next a))
      → Quiet (m >>= next)
  Quiet->>= = Keeps->>= IsQuiet (λ n. tt {0})

EndsUnmounted-each :
    {A : Type 0} (body : A → Script ℕ Call (Unit {0})) (xs : List A)
    → ((x : A) → EndsUnmounted (body x))
    → EndsUnmounted (each body xs)
EndsUnmounted-each body [] h n = refl
EndsUnmounted-each body (x ∷ xs) h n =
    EndsUnmounted->>= (body x) (λ _. each body xs) (h x) (λ _. EndsUnmounted-each body xs h) n

finally-EndsUnmounted :
    (body cleanup : Script ℕ Call (Unit {0}))
    → EndsUnmounted body
    → EndsUnmounted cleanup
    → EndsUnmounted (finally body cleanup)
finally-EndsUnmounted body cleanup h k n =
    let (result, s, calls) = body n in
    ap (left_mounted []) (close-calls cleanup result s calls)
    ∙ (left_mounted-append [] calls (cleanup s).2
        ∙ (ap (λ b. left_mounted b (cleanup s).2) (h n) ∙ k s))

Quiet-when : (b : Bool) (m : Script ℕ Call (Unit {0})) → Quiet m → Quiet (when b m)
Quiet-when = Keeps-when IsQuiet (λ n. tt {0})

Quiet-ask : {A : Type 0} (answer : ℕ → Result A) → Quiet (ask answer)
Quiet-ask answer n = (refl, tt)

module _ (args : Args) (host : Host) where
  pause-Quiet : Quiet (pause args host)
  pause-Quiet n = (refl, ((λ m. refl), tt))

  wait_attached-Quiet : (left : ℕ) → Quiet (wait_attached args host left)
  unfolding wait_attached
  wait_attached-Quiet zero n = (refl, tt)
  wait_attached-Quiet (suc left) n =
      let again = pause args host >> wait_attached args host left in
      let again_Quiet =
        Quiet->>= (pause args host) (λ _. wait_attached args host left) pause-Quiet
          (λ _. wait_attached-Quiet left) in
      Quiet->>= (device_exists args host) (unless_done again)
        (Quiet-ask (λ i. ok (host.exists i args.device)))
        (λ b. Keeps-unless_done IsQuiet (λ i. tt {0}) b again again_Quiet) n

  module _ (vol : Volume) where
    attached_unless-Quiet : (there : Bool) → Quiet (attached_unless args host vol there)
    attached_unless-Quiet true n = (refl, tt)
    attached_unless-Quiet false n = (refl, tt)

    is_busy-Quiet : Quiet (is_busy args host vol)
    is_busy-Quiet =
        Quiet->>= (device_exists args host) (attached_unless args host vol)
          (Quiet-ask (λ i. ok (host.exists i args.device))) attached_unless-Quiet

    turn-Quiet : Quiet (turn args host vol)
    turn-Quiet =
        Quiet->>= (volume_attached args host vol) (detach_if args host vol)
          (Quiet-ask (λ i. host.is_attached i vol.id))
          (λ attached. Quiet-when attached (detach_volume args host vol) (
            Keeps-except_ec2 IsQuiet (λ i. tt {0}) (act (detach vol.id) (λ i. host.detach i vol.id))
              (λ code. from (ok tt)) (λ n. (refl, ((λ m. refl), tt))) (λ code n. (refl, tt))))

    release-Quiet : (left : ℕ) → Quiet (release args host vol left)
    unfolding release
    release-Quiet zero n = (refl, tt)
    release-Quiet (suc left) n =
        let rest = release args host vol left in
        Quiet->>= (is_busy args host vol)
          (λ busy. when busy (turn args host vol >> pause args host >> rest)) is_busy-Quiet
          (λ busy. Quiet-when busy (turn args host vol >> pause args host >> rest) (
            Quiet->>= (turn args host vol >> pause args host) (λ _. rest)
              (Quiet->>= (turn args host vol) (λ _. pause args host) turn-Quiet (λ _. pause-Quiet))
              (λ _. release-Quiet left)))
          n

    tag_with-Quiet : (tag_data : Dict String String) → Quiet (tag_with args host vol tag_data)
    tag_with-Quiet tag_data =
        let tags = put "created" vol.create_time tag_data in
        Keeps-if IsQuiet (λ n. tt {0}) args.noop (from (ok tt))
          (perform (add_tags vol.id tags) (host.add_tag vol.id)) (λ n. (refl, tt))
          (λ n. (refl, ((λ m. refl), tt)))

    read_tags-Quiet :
        (device : String)
        → Quiet (
            from (get_tags_for_disk host.netaddr host.mapping (host.disk device) args.mountpoint)
            >>= tag_with args host vol)
    read_tags-Quiet device =
        Quiet->>=
          (from (get_tags_for_disk host.netaddr host.mapping (host.disk device) args.mountpoint))
          (tag_with args host vol) (λ n. (refl, tt)) tag_with-Quiet

    -- Whatever becomes of the reading, the mountpoint is in use once.
    read_disk-mounts :
        (device : String) (n : ℕ)
        → left_mounted [] (read_disk args host vol device n).2 ≡ args.mountpoint ∷ []
    read_disk-mounts device n =
        continue-left_mounted
          (λ _.
            from (get_tags_for_disk host.netaddr host.mapping (host.disk device) args.mountpoint)
            >>= tag_with args host vol)
          (perform (mount device args.mountpoint) (host.mount device) n)
          (λ _. read_tags-Quiet device)

    -- Whatever becomes of the mounting and the reading, unmounting comes last.
    read_disk-EndsUnmounted :
        (device : String)
        → EndsUnmounted (finally (read_disk args host vol device) (unmount args host))
    read_disk-EndsUnmounted device n =
        let (result, s, calls) = read_disk args host vol device n in
        ap (left_mounted []) (close-calls (unmount args host) result s calls)
        ∙ (left_mounted-append [] calls (umount args.mountpoint ∷ [])
            ∙ (ap (without args.mountpoint) (read_disk-mounts device n) ∙ rw beq_refl refl))

    tag_devices-EndsUnmounted :
        (devices : List String) → EndsUnmounted (tag_devices args host vol devices)
    unfolding tag_devices
    tag_devices-EndsUnmounted [] n = refl
    tag_devices-EndsUnmounted (device ∷ []) n = read_disk-EndsUnmounted device n
    tag_devices-EndsUnmounted (device ∷ other ∷ devices) n = refl

    attach_and_tag-EndsUnmounted : EndsUnmounted (attach_and_tag args host vol)
    attach_and_tag-EndsUnmounted =
        let attached = perform (attach vol.id) (host.attach vol.id) in
        EndsUnmounted->>= (attached >> wait_attached args host turns)
          (λ _. devices_now args host >>= tag_devices args host vol)
          (EndsUnmounted->>= attached (λ _. wait_attached args host turns) (λ n. refl)
            (λ _. Quiet-EndsUnmounted (wait_attached args host turns) (wait_attached-Quiet turns)))
          (λ _.
            EndsUnmounted->>= (devices_now args host) (tag_devices args host vol) (λ n. refl)
              tag_devices-EndsUnmounted)

    tag_volume-EndsUnmounted : EndsUnmounted (tag_volume args host vol)
    unfolding tag_volume
    tag_volume-EndsUnmounted n = elim (Bool-cases (has_key "cluster" vol.tags)) [
      | inl tagged ↦ rw tagged refl
      | inr untagged ↦ rw untagged (
          finally-EndsUnmounted (attach_and_tag args host vol) (release args host vol turns)
            attach_and_tag-EndsUnmounted
            (Quiet-EndsUnmounted (release args host vol turns) (release-Quiet turns)) n)
    ]

-- Whatever the services and the operating system answer, and also where the run ends in an error or
-- exits: each time that something was mounted, its mountpoint has been called for to be unmounted
-- after that.
pub main-EndsUnmounted :
    (args : Args) (host : Host) (potential_volumes : List Volume) (n : ℕ)
    → left_mounted [] (main args host potential_volumes n).2 ≡ []
unfolding main
main-EndsUnmounted args host potential_volumes =
    EndsUnmounted-each (tag_volume args host) potential_volumes (tag_volume-EndsUnmounted args host)
