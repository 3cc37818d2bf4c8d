-- ===== src/Integration/Urls/Decode.antt =====
-- The texts of requests can be read back (mes-backend/src/services/IntegrationService.cc and
-- mes-backend/src/utils/IntegRules.hh).
use mes_cpp.Base.{
  ℕ, ◌+◌, ◌-◌, ◌*◌, ◌/◌, ◌%◌, ◌<◌, ◌≡◌, refl, ap, true, false, List, [], ◌∷◌, ◌++◌, arith, All, leb,
  ◌==◌, if◌then◌else◌, codes, Bool-cases, inl, inr, Lacks, split_at_lem, split_at-Lacks, ◌∙◌,
}
use mes_cpp.Integration.Urls.{
  is_unreserved, hex_at, encode_byte, url_encode, method_or_post, parse_method_path, orders_path,
  get_url, post_url,
}

-- Where the reader of a percent-encoded text (RFC 3986) stands: outside an escape, or before its first or
-- second digit.
pub data Place : Type 0 where
  plain : Place
  first : Place
  second : ℕ → Place

unfoldable pub digit : ℕ → ℕ
digit c = if leb 65 c then c - 55 else c - 48

unfoldable pub decode : Place → List ℕ → List ℕ
decode plain [] = []
decode first [] = []
decode (second h) [] = []
decode plain (c ∷ s) =
    let escape = decode first s in let rest = decode plain s in if c == 37 then escape else c ∷ rest
decode first (c ∷ s) = decode (second (digit c)) s
decode (second h) (c ∷ s) = (h * 16 + digit c) ∷ decode plain s

digit-hex_at : (d : ℕ) → d < 16 → digit (hex_at d) ≡ d
unfolding digit
digit-hex_at d h = ground arith

byte_of_digits : (c : ℕ) → c < 256 → digit (hex_at (c / 16)) * 16 + digit (hex_at (c % 16)) ≡ c
byte_of_digits c h =
    omega (arith, digit-hex_at (c / 16) (omega arith), digit-hex_at (c % 16) (omega arith))

unreserved_is_not_percent : (c : ℕ) → is_unreserved c ≡ true → (c == 37) ≡ false
unreserved_is_not_percent c e = ground arith

decode-encode_byte :
    (c : ℕ) (out : List ℕ) → c < 256 → decode plain (encode_byte c out) ≡ c ∷ decode plain out
unfolding decode
decode-encode_byte c out h = elim (Bool-cases (is_unreserved c)) [
  | inl e ↦ rw (e, unreserved_is_not_percent c e) refl
  | inr e ↦ rw e (ap (λ n. n ∷ decode plain out) (byte_of_digits c h))
]

-- A text of bytes that is encoded reads back as it was.
pub decode-url_encode : (s : List ℕ) → All (λ c. c < 256) s → decode plain (url_encode s) ≡ s
unfolding url_encode decode
decode-url_encode [] h = refl
decode-url_encode (c ∷ s) h =
    decode-encode_byte c (url_encode s) h.0 ∙ ap (λ t. c ∷ t) (decode-url_encode s h.1)

encode_byte-Lacks : (c : ℕ) (out : List ℕ) → c < 256 → Lacks 32 out → Lacks 32 (encode_byte c out)
encode_byte-Lacks c out h k = ground arith

url_encode-Lacks : (s : List ℕ) → All (λ c. c < 256) s → Lacks 32 (url_encode s)
unfolding url_encode
url_encode-Lacks [] h = tt
url_encode-Lacks (c ∷ s) h = encode_byte-Lacks c (url_encode s) h.0 (url_encode-Lacks s h.1)

-- A method without a blank, a blank and a path read back as the method and the path.
pub parse_method_path_lem :
    (m path : List ℕ) → Lacks 32 m → parse_method_path (m ++ 32 ∷ path) ≡ (m, path)
unfolding parse_method_path
parse_method_path_lem m path h = ap (method_or_post (m ++ 32 ∷ path)) (split_at_lem 32 m path h)

parse_method_path-Lacks : (s : List ℕ) → Lacks 32 s → parse_method_path s ≡ (codes "POST", s)
unfolding parse_method_path
parse_method_path-Lacks s h = ap (method_or_post s) (split_at-Lacks 32 s h)

-- The address that a synchronisation logs, for any dates and any text of the order type: its method and its
-- path read back as they were.
pub get_url-orders_path :
    (start_date end_date order_type : List ℕ)
    → parse_method_path (get_url (orders_path start_date end_date order_type))
      ≡ (codes "GET", orders_path start_date end_date order_type)
unfolding get_url codes
get_url-orders_path start_date end_date order_type =
    parse_method_path_lem (codes "GET") (orders_path start_date end_date order_type)
      (refl, (refl, (refl, tt)))

pub parse-post_url : (path : List ℕ) → parse_method_path (post_url path) ≡ (codes "POST", path)
unfolding post_url codes
parse-post_url path = parse_method_path_lem (codes "POST") path (refl, (refl, (refl, (refl, tt))))
