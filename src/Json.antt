-- ===== src/Json.antt =====
-- What the program takes from its JSON library: objects made of fields, their text, and `value` with a
-- default.
use text.Mathlib.Text.{◌==◌ as str_eq}
use mes_cpp.Base.{◌≡◌, Option, none, some, List, [], ◌∷◌, String, if◌then◌else◌, ℤ}

pub data Scalar : Type 0 where
  words : String → Scalar
  whole : ℤ → Scalar
  -- an object or an array, which none of the readers looks into
  nested : Scalar

abbrev pub Fields : Type 0
Fields = List (String × Scalar)

unfoldable pub field : String → Fields → Option Scalar
field name [] = none
field name ((k, v) ∷ fs) = let rest = field name fs in if str_eq k name then some v else rest

-- The value of a field that is there and has the type, the default where the field is missing, and
-- `none`, an exception, where it has another type.
abbrev pub whole_or : ℤ → Option Scalar → Option ℤ
whole_or d none = some d
whole_or d (some (whole n)) = some n
whole_or d (some (words s)) = none
whole_or d (some nested) = none

abbrev pub words_or : String → Option Scalar → Option String
words_or d none = some d
words_or d (some (words s)) = some s
words_or d (some (whole n)) = none
words_or d (some nested) = none

-- The operations; `none` for an exception.
pub record JsonLibrary : Type 1 where
  pub Json : Type 0
  -- a JSON text
  pub Text : Type 0
  pub object : Fields → Json
  pub dump : Json → Text
  pub parse : Text → Option Json
  pub value_whole : Json → String → ℤ → Option ℤ
  pub value_words : Json → String → String → Option String

-- What the library documents of them.
pub record JsonLaws (lib : JsonLibrary) : Type 0 where
  pub parse-dump : (fs : Fields) → lib.parse (lib.dump (lib.object fs)) ≡ some (lib.object fs)
  pub value_whole_lem :
      (fs : Fields) (name : String) (d : ℤ)
      → lib.value_whole (lib.object fs) name d ≡ whole_or d (field name fs)
  pub value_words_lem :
      (fs : Fields) (name d : String)
      → lib.value_words (lib.object fs) name d ≡ words_or d (field name fs)
