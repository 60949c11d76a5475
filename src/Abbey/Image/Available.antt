-- ===== src/Abbey/Image/Available.antt =====
-- What `create_ami` of util/vpc-tools/abbey.py comes to.
use mathlib.Core.List.{append-nil, map-append}
use configuration.Base.{
  ℕ, ◌<◌, ◌≡◌, refl, Bool, true, false, not, List, [], ◌∷◌, ◌++◌, map, String, ◌==◌, string_eq,
  Option, none, some, Result, ok, raised, other_error, arith, select,
}
use configuration.Base.Script.{Run, ec2_code, handle_code, after}
use configuration.Base.Script.Wait.{wait_until-done, wait_until-timeout}
use configuration.Abbey.Image.{
  Args, Tag, Call, create_image, add_tag, Globals, Images, fixed_tags, is_version, add_tags,
  tag_image, try_image, create_ami, ami_timeout, retry_if_missing,
}

abbrev pub is_missing : Option String → Bool
is_missing (some code) = code == "InvalidAMIID.NotFound"
is_missing none = false

-- An answer after which the script asks again.
abbrev pub is_pending : Result String → Bool
is_pending (ok state) = not (state == "available")
is_pending (raised e) = is_missing (ec2_code e)

module _ (images : Images) (args : Args) (instance_id name image_id : String) (s : Globals) where
  add_tags-ok :
      (n : ℕ) (tags : List Tag)
      → ((t : Tag) → images.tag n t ≡ ok tt)
      → add_tags images n image_id tags s ≡ (ok tt, s, map (add_tag image_id) tags)
  add_tags-ok n [] h = refl
  add_tags-ok n (t ∷ tags) h = rw (h t, add_tags-ok n tags h) refl

  tag_image-ok :
      (n : ℕ) (tags : List Tag)
      → ((t : Tag) → images.tag n t ≡ ok tt)
      → images.tags_of n instance_id ≡ ok tags
      → tag_image images args instance_id image_id n s ≡ (
        ok tt,
        s,
        map (add_tag image_id) (fixed_tags args) ++ map (add_tag image_id) (select is_version tags),
      )
  unfolding tag_image
  tag_image-ok n tags h e =
      rw (add_tags-ok n (fixed_tags args) h, e, add_tags-ok n (select is_version tags) h) refl

  retried :
      (code : Option String) (raising : Run Globals Call Bool)
      → is_missing code ≡ true
      → handle_code code (λ c. after [] (retry_if_missing c s)) raising ≡ (ok false, s, [])
  retried (some code) raising p = rw p refl
  retried none raising p = absurd (cc p)

  try_image-pending :
      (n : ℕ) (answer : Result String)
      → images.state n image_id ≡ answer
      → is_pending answer ≡ true
      → try_image images args instance_id image_id n s ≡ (ok false, s, [])
  unfolding try_image
  try_image-pending n (ok state) e p =
      let off : (state == "available") ≡ false = ground arith in rw (e, off) refl
  try_image-pending n (raised x) e p = rw e (retried (ec2_code x) _ p)

  try_image-available :
      (n : ℕ) (tags : List Tag)
      → images.state n image_id ≡ ok "available"
      → ((t : Tag) → images.tag n t ≡ ok tt)
      → images.tags_of n instance_id ≡ ok tags
      → try_image images args instance_id image_id n s ≡ (
        ok true,
        s,
        map (add_tag image_id) (fixed_tags args) ++ map (add_tag image_id) (select is_version tags),
      )
  unfolding try_image
  try_image-available n tags e h g = rw (e, tag_image-ok n tags h g, append-nil) refl

  pub create_ami-available :
      (k : ℕ) (tags : List Tag)
      → images.create instance_id name ≡ ok image_id
      → ((i : ℕ) → i < k → is_pending (images.state i image_id) ≡ true)
      → k < ami_timeout
      → images.state k image_id ≡ ok "available"
      → ((t : Tag) → images.tag k t ≡ ok tt)
      → images.tags_of k instance_id ≡ ok tags
      → create_ami images args instance_id name s ≡ (
        ok image_id,
        s,
        create_image instance_id name
            ∷ map (add_tag image_id) (fixed_tags args ++ select is_version tags),
      )
  unfolding create_ami
  create_ami-available k tags made pending lt e h g =
      rw
        (
          made,
          wait_until-done (try_image images args instance_id image_id) other_error s ami_timeout 0 k
              s _ (λ i _ l. try_image-pending i (images.state i image_id) refl (pending i l))
              (omega arith) lt (try_image-available k tags e h g),
          append-nil,
          append-nil,
          map-append,
        )
        refl

  -- If the image is created and every attempt finds it pending or missing, then the script raises
  -- its time-out and has tagged nothing.
  pub create_ami-timeout :
      images.create instance_id name ≡ ok image_id
      → ((i : ℕ) → i < ami_timeout → is_pending (images.state i image_id) ≡ true)
      → create_ami images args instance_id name s
        ≡ (raised other_error, s, create_image instance_id name ∷ [])
  unfolding create_ami
  create_ami-timeout made pending =
      rw
        (
          made,
          wait_until-timeout (try_image images args instance_id image_id) other_error s ami_timeout
              0 (λ i l. try_image-pending i (images.state i image_id) refl (pending i l)),
        )
        refl
