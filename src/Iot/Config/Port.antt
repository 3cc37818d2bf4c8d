-- ===== src/Iot/Config/Port.antt =====
-- Where the parse of the backend's address throws: `parseUrl` of mes-iot/src/collector/ConfigLoader.cc.
use mathlib.Core.List.{append-nil}
use mes_cpp.Base.{
  length, ℕ, ◌≡◌, refl, sym, ap, subst, ◌∙◌, ◌≢◌, ◌⊎◌, inl, inr, true, false, Option, none, some,
  List, [], ◌∷◌, ◌++◌, ◌==◌, arith, codes, drop, ℤ, All-append, Bool-cases, split_at, with_byte,
  Lacks, split_at_lem, split_at-Lacks,
}
use mes_cpp.Audit.{has_prefix}
use mes_cpp.Iot.Config.Urls.{
  throws, path_parts, port_parts, url_parts, with_port, parse_parts, parse_rest, parse_url,
}

-- The end of an address: nothing, or a slash and more.
abbrev pub IsTail : List ℕ → Type 0
IsTail [] = Unit
IsTail (c ∷ s) = c ≡ 47

-- An address with a port at whose text `std::stoi` throws.
pub record PortThrows (stoi : List ℕ → Option ℤ) (url : List ℕ) : Type 0 where
  pub host : List ℕ
  pub port : List ℕ
  pub tail : List ℕ
  pub url_is : url ≡ codes "http://" ++ (host ++ 58 ∷ port) ++ tail
  pub host_ends : Lacks 47 host × Lacks 58 host
  pub port_ends : Lacks 47 port
  pub tail_starts : IsTail tail
  pub fails : stoi port ≡ none

-- A text has the byte or lacks it.
split_cases :
    (sep : ℕ) (s : List ℕ)
    → (Lacks sep s × (split_at sep s ≡ none))
      ⊎ ((m : List ℕ) × (rest : List ℕ) × (s ≡ m ++ sep ∷ rest)
          × Lacks sep m
          × (split_at sep s ≡ some (m, sep ∷ rest)))
unfolding split_at
split_cases sep [] = inl (tt, refl)
split_cases sep (c ∷ s) = elim (Bool-cases (c == sep)) [
  | inl e ↦
      let same : c ≡ sep = ground (arith, e) in
      rw e (inr ([], s, ap (λ x. x ∷ s) same, tt, ap (λ x. some ([], x ∷ s)) same))
  | inr e ↦ elim (split_cases sep s) [
    | inl (lacks, none_there) ↦ rw e (inl ((refl, lacks), ap (with_byte c) none_there))
    | inr (m, rest, parts, lacks, there) ↦
        rw e (inr (c ∷ m, rest, ap (λ x. c ∷ x) parts, (e, lacks), ap (with_byte c) there))
  ]
]

module _ (stoi : List ℕ → Option ℤ) where
  -- The host and the port, up to the first slash or the end.
  parse_tail :
      (host_port tail : List ℕ)
      → Lacks 47 host_port
      → IsTail tail
      → (path : List ℕ) × (parse_rest stoi (host_port ++ tail) ≡ parse_parts stoi (host_port, path))
  unfolding parse_rest
  parse_tail host_port [] lacks t = (
    codes "/",
    ap (λ s. parse_parts stoi (path_parts s (split_at 47 s))) (append-nil host_port)
        ∙ ap (λ o. parse_parts stoi (path_parts host_port o)) (split_at-Lacks 47 host_port lacks),
  )
  parse_tail host_port (c ∷ s) lacks t = (
    47 ∷ s,
    ap (λ x. parse_parts stoi (path_parts (host_port ++ x ∷ s) (split_at 47 (host_port ++ x ∷ s))))
          t
        ∙ ap (λ o. parse_parts stoi (path_parts (host_port ++ 47 ∷ s) o))
            (split_at_lem 47 host_port s lacks),
  )

  pub PortThrows-throws : (url : List ℕ) → PortThrows stoi url → parse_url stoi url ≡ throws
  unfolding parse_url parse_parts with_port url_parts has_prefix codes
  PortThrows-throws url h =
      let host_port = h.host ++ 58 ∷ h.port in
      let ends =
        parse_tail host_port h.tail
          (All-append (λ x. (x == 47) ≡ false) h.host (58 ∷ h.port) h.host_ends.0
            (refl, h.port_ends))
          h.tail_starts in
      ap (parse_url stoi) h.url_is
      ∙ ends.1
      ∙ ap (λ o. with_port stoi ends.0 (port_parts host_port o))
          (split_at_lem 58 h.host h.port h.host_ends.1)
      ∙ ap (url_parts h.host ends.0) h.fails

  append-Lacks : (sep : ℕ) (m rest : List ℕ) → Lacks sep (m ++ rest) → Lacks sep m × Lacks sep rest
  append-Lacks sep [] rest h = (tt, h)
  append-Lacks sep (c ∷ m) rest h =
      let parts = append-Lacks sep m rest h.1 in ((h.0, parts.0), parts.1)

  url_parts-throws : (host path : List ℕ) (o : Option ℤ) → url_parts host path o ≡ throws → o ≡ none
  unfolding url_parts
  url_parts-throws host path none h = refl
  url_parts-throws host path (some port) h = absurd (ground (arith, h))

  parse_parts-throws :
      (host_port path : List ℕ)
      → parse_parts stoi (host_port, path) ≡ throws
      → (host : List ℕ) × (port : List ℕ) × (host_port ≡ host ++ 58 ∷ port)
        × Lacks 58 host
        × (stoi port ≡ none)
  unfolding parse_parts with_port
  parse_parts-throws host_port path h = elim (split_cases 58 host_port) [
    | inl (lacks, missing) ↦ absurd (
        none_some (
          url_parts-throws host_port path _
            (sym (ap (λ o. with_port stoi path (port_parts host_port o)) missing) ∙ h)))
    | inr (host, port, parts, lacks, there) ↦ (
      host,
      port,
      parts,
      lacks,
      url_parts-throws host path (stoi port)
          (sym (ap (λ o. with_port stoi path (port_parts host_port o)) there) ∙ h),
    )
  ]
    where
      none_some : {n : ℤ} → some n ≢ none
      none_some e = cc e

  -- Of an address that throws, the parts.
  rest-PortThrows :
      (url host_port tail : List ℕ)
      → url ≡ codes "http://" ++ host_port ++ tail
      → Lacks 47 host_port
      → IsTail tail
      → parse_rest stoi (host_port ++ tail) ≡ throws
      → PortThrows stoi url
  rest-PortThrows url host_port tail u lacks t h =
      let ends = parse_tail host_port tail lacks t in
      let (host, port, parts, no_colon, fails) =
        parse_parts-throws host_port ends.0 (sym ends.1 ∙ h) in
      let slashes = append-Lacks 47 host (58 ∷ port) (subst (Lacks 47) parts lacks) in
      record {
        host = host;
        port = port;
        tail = tail;
        url_is = u ∙ ap (λ s. codes "http://" ++ s ++ tail) parts;
        host_ends = (slashes.0, no_colon);
        port_ends = slashes.1.1;
        tail_starts = t;
        fails = fails;
      }

  has_prefix-drop : (p s : List ℕ) → has_prefix p s ≡ true → s ≡ p ++ drop (length p) s
  unfolding has_prefix
  has_prefix-drop [] s h = refl
  has_prefix-drop (c ∷ p) [] h = absurd (cc h)
  has_prefix-drop (c ∷ p) (x ∷ s) h = elim (Bool-cases (x == c)) [
    | inl e ↦
        ap (λ y. y ∷ s) (same e) ∙ ap (λ r. c ∷ r) (has_prefix-drop p s (ground (arith, e, h)))
    | inr e ↦ absurd (ground (arith, e, h))
  ]
    where
      same : (x == c) ≡ true → x ≡ c
      same e = ground (arith, e)

  on_http :
      (url : List ℕ)
      → has_prefix (codes "http://") url ≡ true
      → parse_url stoi url ≡ parse_rest stoi (drop 7 url)
  unfolding parse_url
  on_http url e = rw (e, parse_url) refl

  on_other : (url : List ℕ) → has_prefix (codes "http://") url ≡ false → parse_url stoi url ≢ throws
  unfolding parse_url
  on_other url e h = ground (arith, e, h)

  pub throws-PortThrows : (url : List ℕ) → parse_url stoi url ≡ throws → PortThrows stoi url
  unfolding codes
  throws-PortThrows url h = elim (Bool-cases (has_prefix (codes "http://") url)) [
    | inr other ↦ absurd (on_other url other h)
    | inl http ↦
        let rest = drop 7 url in
        let whole = has_prefix-drop (codes "http://") url http in
        let stops = sym (on_http url http) ∙ h in
        elim (split_cases 47 rest) [
          | inl (lacks, missing) ↦
              rest-PortThrows url rest []
                (whole ∙ ap (λ s. codes "http://" ++ s) (sym (append-nil rest))) lacks tt
                (ap (parse_rest stoi) (append-nil rest) ∙ stops)
          | inr (m, tail, parts, lacks, there) ↦
              rest-PortThrows url m (47 ∷ tail) (whole ∙ ap (λ s. codes "http://" ++ s) parts) lacks
                refl (ap (parse_rest stoi) (sym parts) ∙ stops)
        ]
  ]
