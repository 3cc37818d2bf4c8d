-- ===== src/Integration/Urls.antt =====
-- The texts of requests: `urlEncode` of mes-backend/src/services/IntegrationService.cc and
-- mes-backend/src/utils/IntegRules.hh. Texts are lists of bytes.
pub mod Decode
use mes_cpp.Base.{
  ℕ, ◌+◌, ◌/◌, ◌%◌, Bool, true, false, ◌&&◌, ◌||◌, Option, none, some, List, [], ◌∷◌, ◌++◌, String,
  ◌==◌, leb, ltb, if◌then◌else◌, codes, drop, split_at,
}

-- `std::isalnum` in the C locale
abbrev pub is_alnum : ℕ → Bool
is_alnum c = leb 48 c && leb c 57 || (leb 65 c && leb c 90 || leb 97 c && leb c 122)

abbrev pub is_unreserved : ℕ → Bool
is_unreserved c = is_alnum c || (c == 45 || (c == 95 || (c == 46 || c == 126)))

-- The digit at a place of `hex`.
abbrev pub hex_at : ℕ → ℕ
hex_at d = if ltb d 10 then 48 + d else 55 + d

abbrev pub encode_byte : ℕ → List ℕ → List ℕ
encode_byte c out =
    if is_unreserved c then c ∷ out else 37 ∷ hex_at (c / 16) ∷ hex_at (c % 16) ∷ out

unfoldable pub url_encode : List ℕ → List ℕ
url_encode [] = []
url_encode (c ∷ s) = encode_byte c (url_encode s)

-- The parts before and after the first blank, or the default.
abbrev pub method_or_post : List ℕ → Option (List ℕ × List ℕ) → List ℕ × List ℕ
method_or_post url none = (codes "POST", url)
method_or_post url (some (method, path)) = (method, drop 1 path)

unfoldable pub parse_method_path : List ℕ → List ℕ × List ℕ
parse_method_path url = method_or_post url (split_at 32 url)

-- The path of `syncErpOrders`; `order_type` is the text of the number.
unfoldable pub orders_path : List ℕ → List ℕ → List ℕ → List ℕ
orders_path start_date end_date order_type =
    codes "/erp/orders?start_date="
    ++ url_encode start_date
    ++ codes "&end_date="
    ++ url_encode end_date
    ++ codes "&order_type="
    ++ order_type

-- `std::string("GET ") + path`
unfoldable pub get_url : List ℕ → List ℕ
get_url path = codes "GET " ++ path

-- `std::string("POST ") + path`
unfoldable pub post_url : List ℕ → List ℕ
post_url path = codes "POST " ++ path
