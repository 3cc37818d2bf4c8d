-- ===== src/Audit/Mask/Paths.antt =====
-- What masking leaves at each place of an object (mes-backend/src/utils/AuditMask.hh).
use mes_cpp.Base.{
  ℕ, ◌≡◌, refl, inl, inr, Bool, true, false, Option, none, some, List, [], ◌∷◌, if◌then◌else◌,
  arith, Bool-cases, ◌>>=◌, ap, ◌∙◌,
}
use mes_cpp.Audit.{bytes_eq}
use mes_cpp.Audit.Mask.{
  Value, text, plain, array, object, Members, no_members, member, is_password_key, mask_text,
  mask_object, mask_value,
}

bytes_eq-same : (k key : List ℕ) → bytes_eq k key ≡ true → k ≡ key
unfolding bytes_eq
bytes_eq-same [] [] h = refl
bytes_eq-same [] (d ∷ ds) h = cc h
bytes_eq-same (c ∷ cs) [] h = cc h
bytes_eq-same (c ∷ cs) (d ∷ ds) h = ground (arith, bytes_eq-same cs ds)

unfoldable pub get : List ℕ → Members → Option Value
get key no_members = none
get key (member k v ms) = let rest = get key ms in if bytes_eq k key then some v else rest

abbrev pub as_object : Option Value → Option Members
as_object (some (object inner)) = some inner
as_object _ = none

-- The member of an object that a key leads to, and the keys after it one object deeper each.
unfoldable pub look_up : List ℕ → List (List ℕ) → Members → Option Value
look_up key [] ms = get key ms
look_up key (k ∷ ks) ms = as_object (get key ms) >>= λ inner. look_up k ks inner

unfoldable pub last_key : List ℕ → List (List ℕ) → List ℕ
last_key key [] = key
last_key key (k ∷ ks) = last_key k ks

-- Texts, numbers, Booleans, null and arrays.
abbrev pub Leaf : Value → Type 0
Leaf (object ms) = ⊥
Leaf (text t) = Unit
Leaf (plain t) = Unit
Leaf (array vs) = Unit

abbrev masked : List ℕ → Option Value → Option Value
masked key none = none
masked key (some v) = some (mask_value key v)

get-mask : (key : List ℕ) (ms : Members) → get key (mask_object ms) ≡ masked key (get key ms)
unfolding get mask_object
get-mask key no_members = refl
get-mask key (member k v ms) = elim (Bool-cases (bytes_eq k key)) [
  | inl own ↦ rw own (ap (λ l. some (mask_value l v)) (bytes_eq-same k key own))
  | inr other ↦ rw other (get-mask key ms)
]

abbrev map_object : Option Members → Option Members
map_object none = none
map_object (some ms) = some (mask_object ms)

as_object-Leaf :
    (b : Bool) (v : Value)
    → as_object (some v) ≡ none
    → as_object (some (if b then mask_text else v)) ≡ none
as_object-Leaf true v h = refl
as_object-Leaf false v h = h

as_object-mask :
    (key : List ℕ) (o : Option Value) → as_object (masked key o) ≡ map_object (as_object o)
unfolding mask_object
as_object-mask key none = refl
as_object-mask key (some (object ms)) = refl
as_object-mask key (some (text t)) = as_object-Leaf (is_password_key key) (text t) refl
as_object-mask key (some (plain t)) = as_object-Leaf (is_password_key key) (plain t) refl
as_object-mask key (some (array vs)) = as_object-Leaf (is_password_key key) (array vs) refl

look_up-mask :
    (key : List ℕ) (ks : List (List ℕ)) (ms : Members)
    → look_up key ks (mask_object ms) ≡ masked (last_key key ks) (look_up key ks ms)
unfolding look_up last_key
look_up-mask key [] ms = get-mask key ms
look_up-mask key (k ∷ ks) ms =
    ap (λ o. as_object o >>= λ inner. look_up k ks inner) (get-mask key ms)
    ∙ ap (λ o. o >>= λ inner. look_up k ks inner) (as_object-mask key (get key ms))
    ∙ deeper (λ inner. look_up-mask k ks inner) (as_object (get key ms))
  where
    deeper :
        ((inner : Members)
          → look_up k ks (mask_object inner) ≡ masked (last_key k ks) (look_up k ks inner))
        → (o : Option Members)
        → (map_object o >>= λ inner. look_up k ks inner)
          ≡ masked (last_key k ks) (o >>= λ inner. look_up k ks inner)
    deeper rest none = refl
    deeper rest (some inner) = rest inner

mask_value-Leaf :
    (key : List ℕ) (v : Value)
    → Leaf v
    → mask_value key v ≡ (if is_password_key key then mask_text else v)
unfolding mask_object
mask_value-Leaf key (object ms) h = absurd h
mask_value-Leaf key (text t) h = refl
mask_value-Leaf key (plain t) h = refl
mask_value-Leaf key (array vs) h = refl

-- However deep in nested objects a text, number, Boolean, null or array stands, masking leaves "***" in
-- its place where its own key has "password" in it, in any case, and the value itself where it has not.
pub look_up-masked :
    (key : List ℕ) (ks : List (List ℕ)) (ms : Members) (v : Value)
    → look_up key ks ms ≡ some v
    → Leaf v
    → look_up key ks (mask_object ms)
      ≡ some (if is_password_key (last_key key ks) then mask_text else v)
look_up-masked key ks ms v e h =
    look_up-mask key ks ms
    ∙ ap (masked (last_key key ks)) e
    ∙ ap some (mask_value-Leaf (last_key key ks) v h)
