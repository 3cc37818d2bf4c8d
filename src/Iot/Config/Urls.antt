-- ===== src/Iot/Config/Urls.antt =====
-- The address of the backend and the body of its answers: `parseUrl`, and the split that `httpGet` and
-- `httpPost` make, of mes-iot/src/collector/ConfigLoader.cc. Texts are lists of bytes; `std::stoi` is a
-- parameter.
use mes_cpp.Base.{
  ℕ, ◌≡◌, refl, ap, ◌∙◌, Bool, true, false, Option, none, some, List, [], ◌∷◌, ◌++◌, ◌==◌,
  if◌then◌else◌, codes, drop, split_at, Lacks, split_at_lem, All-append, ℤ, pos,
}
use mes_cpp.Audit.{has_prefix}

-- UrlParts
pub record UrlParts : Type 0 where
  pub host : List ℕ
  pub port : ℤ
  pub path : List ℕ

-- `hostPort` and `path`
abbrev pub path_parts : List ℕ → Option (List ℕ × List ℕ) → List ℕ × List ℕ
path_parts rest none = (rest, codes "/")
path_parts rest (some parts) = parts

-- `host` and the port's text; `none` where there is no colon.
abbrev pub port_parts : List ℕ → Option (List ℕ × List ℕ) → List ℕ × Option (List ℕ)
port_parts host_port none = (host_port, none)
port_parts host_port (some (host, rest)) = (host, some (drop 1 rest))

-- `none` is the exception of `std::stoi`.
abbrev pub read_port : (List ℕ → Option ℤ) → Option (List ℕ) → Option ℤ
read_port stoi none = some (pos 80)
read_port stoi (some text) = stoi text

-- What `parseUrl` gives: an exception, false, or true with the parts.
pub data Parsed : Type 0 where
  throws refused : Parsed
  parsed : UrlParts → Parsed

abbrev pub is_empty : List ℕ → Bool
is_empty [] = true
is_empty (c ∷ s) = false

unfoldable pub url_parts : List ℕ → List ℕ → Option ℤ → Parsed
url_parts host path none = throws
url_parts host path (some port) =
    if is_empty host then refused else parsed (record { host = host; port = port; path = path })

unfoldable pub with_port : (List ℕ → Option ℤ) → List ℕ → List ℕ × Option (List ℕ) → Parsed
with_port stoi path (host, port) = url_parts host path (read_port stoi port)

unfoldable pub parse_parts : (List ℕ → Option ℤ) → List ℕ × List ℕ → Parsed
parse_parts stoi (host_port, path) =
    with_port stoi path (port_parts host_port (split_at 58 host_port))

unfoldable pub parse_rest : (List ℕ → Option ℤ) → List ℕ → Parsed
parse_rest stoi rest = parse_parts stoi (path_parts rest (split_at 47 rest))

unfoldable pub parse_url : (List ℕ → Option ℤ) → List ℕ → Parsed
parse_url stoi url =
    if has_prefix (codes "http://") url then parse_rest stoi (drop 7 url) else refused

-- `response.find("\r\n\r\n")` and what comes after it; the empty text where it is not found.
unfoldable pub body_of : List ℕ → List ℕ
body_of [] = []
body_of (c ∷ s) =
    let rest = body_of s in if has_prefix (13 ∷ 10 ∷ 13 ∷ 10 ∷ []) (c ∷ s) then drop 3 s else rest

module _ (stoi : List ℕ → Option ℤ) (host port path : List ℕ) (n : ℤ) where
  -- The host and the port of an address without a path.
  host_port_lem :
      Lacks 58 host
      → port_parts (host ++ 58 ∷ port) (split_at 58 (host ++ 58 ∷ port)) ≡ (host, some port)
  host_port_lem h = ap (port_parts (host ++ 58 ∷ port)) (split_at_lem 58 host port h)

  -- An address http://host:port/path reads back as its parts, where the host is not empty and has neither
  -- a slash nor a colon, the port's text has no slash, and `std::stoi` reads it.
  pub parse_url_lem :
      is_empty host ≡ false
      → Lacks 47 host
      → Lacks 58 host
      → Lacks 47 port
      → stoi port ≡ some n
      → parse_url stoi (codes "http://" ++ (host ++ 58 ∷ port) ++ 47 ∷ path)
        ≡ parsed (record { host = host; port = n; path = 47 ∷ path })
  unfolding parse_url parse_rest parse_parts with_port url_parts has_prefix codes
  parse_url_lem e s c d k =
      let host_port = host ++ 58 ∷ port in
      ap (λ o. parse_parts stoi (path_parts (host_port ++ 47 ∷ path) o))
        (split_at_lem 47 host_port path
          (All-append (λ x. (x == 47) ≡ false) host (58 ∷ port) s (refl, d)))
      ∙ ap (with_port stoi (47 ∷ path)) (host_port_lem c)
      ∙ rw (k, e) refl
