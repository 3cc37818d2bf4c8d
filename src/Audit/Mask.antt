-- ===== src/Audit/Mask.antt =====
-- The masking of passwords in the audit log (mes-backend/src/utils/AuditMask.hh). Texts are lists of
-- bytes, an object is its members in order, and the JSON library is a parameter.
pub mod Paths
use mes_cpp.Base.{
  ℕ, ◌+◌, ◌<◌, Bool, true, false, Option, none, some, List, [], ◌∷◌, String, ◌==◌, if◌then◌else◌,
  ◌&&◌, ◌||◌, leb, codes,
}

mutual
  pub data Value : Type 0 where
    text : List ℕ → Value
    -- a number, a Boolean or null, by its text
    plain : List ℕ → Value
    array : Values → Value
    object : Members → Value

  pub data Values : Type 0 where
    no_values : Values
    value : Value → Values → Values

  pub data Members : Type 0 where
    no_members : Members
    member : List ℕ → Value → Members → Members

pub record JsonTrees : Type 0 where
  -- `none` for an exception
  pub parse : List ℕ → Option Value
  pub dump : Value → List ℕ

-- `std::tolower`
unfoldable pub to_lower : ℕ → ℕ
to_lower c = if leb 65 c && leb c 90 then c + 32 else c

unfoldable pub starts_lower : List ℕ → List ℕ → Bool
starts_lower [] key = true
starts_lower (p ∷ ps) [] = false
starts_lower (p ∷ ps) (c ∷ cs) =
    let rest = starts_lower ps cs in if to_lower c == p then rest else false

-- Whether "password" stands somewhere in the key, in any case.
unfoldable pub is_password_key : List ℕ → Bool
is_password_key [] = false
is_password_key (c ∷ cs) =
    let rest = is_password_key cs in if starts_lower (codes "password") (c ∷ cs) then true else rest

abbrev pub mask_text : Value
mask_text = text (42 ∷ 42 ∷ 42 ∷ [])

abbrev pub mask_leaf : List ℕ → Value → Value
mask_leaf key v = if is_password_key key then mask_text else v

-- `maskObject`, with its loop's body
unfoldable mutual
  pub mask_object : Members → Members
  mask_object no_members = no_members
  mask_object (member key v ms) = member key (mask_value key v) (mask_object ms)

  pub mask_value : List ℕ → Value → Value
  mask_value key (object ms) = object (mask_object ms)
  mask_value key (text t) = mask_leaf key (text t)
  mask_value key (plain t) = mask_leaf key (plain t)
  mask_value key (array vs) = mask_leaf key (array vs)

unfoldable pub mask_sensitive_json : JsonTrees → List ℕ → List ℕ
mask_sensitive_json lib [] = []
mask_sensitive_json lib (c ∷ cs) = elim (lib.parse (c ∷ cs)) [
  | none ↦ c ∷ cs
  | some (object ms) ↦ lib.dump (object (mask_object ms))
  | some v ↦ c ∷ cs
]
