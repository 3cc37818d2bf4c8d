-- ===== src/Audit/Tests.antt =====
-- The theorems on the audit log at a concrete path and a concrete body.
use mes_cpp.Base.{ℕ, ◌≡◌, refl, some, List, [], ◌∷◌, if◌then◌else◌, codes}
use mes_cpp.Audit.{bytes_eq}
use mes_cpp.Audit.Mask.{
  text, plain, object, Members, no_members, member, is_password_key, mask_text, mask_object,
}
use mes_cpp.Audit.Mask.Paths.{get, look_up, last_key, look_up-masked}
use mes_cpp.Audit.Module.{Segment}

-- {"user": {"newPassword": "x"}, "id": 1}
abbrev new_password : List ℕ
new_password = codes "newPassword"

abbrev body : Members
body =
    member (codes "user") (object (member new_password (text (codes "x")) no_members))
      (member (codes "id") (plain (codes "1")) no_members)

body_found : look_up (codes "user") (new_password ∷ []) body ≡ some (text (codes "x"))
unfolding look_up get bytes_eq codes
body_found = refl

look_up-masked_example :
    look_up (codes "user") (new_password ∷ []) (mask_object body)
    ≡ some (
        if is_password_key (last_key (codes "user") (new_password ∷ []))
        then mask_text
        else text (codes "x"))
look_up-masked_example =
    look_up-masked (codes "user") (new_password ∷ []) body (text (codes "x")) body_found tt

api-Segment : Segment (codes "api")
unfolding codes
api-Segment = (refl, (refl, (refl, tt)))

v1-Segment : Segment (codes "v1")
unfolding codes
v1-Segment = (refl, (refl, tt))

system-Segment : Segment (codes "system")
unfolding codes
system-Segment = (refl, (refl, (refl, (refl, (refl, (refl, tt))))))

users-Segment : Segment (codes "users")
unfolding codes
users-Segment = (refl, (refl, (refl, (refl, (refl, tt)))))
