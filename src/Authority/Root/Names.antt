-- ===== src/Authority/Root/Names.antt =====
-- The names that the certificate of the server is for.
use praetor_server.Prelude.{
  append_assoc, append_nil, sym, ap, ◌∙◌, String, ◌≡◌, none, some, Option, List, [], ◌∷◌, ◌++◌,
  Bytes, Option-cases, inl, inr, is_none,
}
use praetor_server.Sql.{select}
use praetor_server.Authority.Root.{sort_names, Bool}

abbrev before : Option Bytes → List Bytes → List Bytes
before none ips = ips
before (some ip) ips = ip ∷ ips

-- The addresses among the names, in their order.
unfoldable pub addresses : (String → Option Bytes) → List String → List Bytes
addresses parse_ip [] = []
addresses parse_ip (n ∷ ns) = before (parse_ip n) (addresses parse_ip ns)

abbrev pub is_dns_name : (String → Option Bytes) → String → Bool
is_dns_name parse_ip name = is_none (parse_ip name)

-- The loop over the names sorts them into those that are no addresses and the addresses of the
-- others, each in their order and each name on one side, after what it starts with.
pub sort_names_filters :
    (parse_ip : String → Option Bytes) (names dns : List String) (ips : List Bytes)
    → sort_names parse_ip names (dns, ips)
      ≡ (dns ++ select (is_dns_name parse_ip) names, ips ++ addresses parse_ip names)
unfolding sort_names select addresses
sort_names_filters parse_ip [] dns ips =
    ap (λ x. (x, ips)) (sym (append_nil dns)) ∙ ap (λ y. (dns ++ [], y)) (sym (append_nil ips))
sort_names_filters parse_ip (n ∷ ns) dns ips = elim (Option-cases (parse_ip n)) [
  | inl e ↦ rw e (
      sort_names_filters parse_ip ns (dns ++ n ∷ []) ips
      ∙ ap (λ x. (x, ips ++ addresses parse_ip ns))
          (append_assoc dns (n ∷ []) (select (is_dns_name parse_ip) ns)))
  | inr (ip, e) ↦ rw e (
      sort_names_filters parse_ip ns dns (ips ++ ip ∷ [])
      ∙ ap (λ y. (dns ++ select (is_dns_name parse_ip) ns, y))
          (append_assoc ips (ip ∷ []) (addresses parse_ip ns)))
]
