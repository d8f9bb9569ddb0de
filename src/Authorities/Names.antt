-- ===== src/Authorities/Names.antt =====
-- `parse_entry` of app/services/san.py, and the requested names and the matching rules of
-- app/services/name_constraints.py. `ipaddress` and `urlsplit` are parameters: whether an address is
-- in a network, and the host of a URL.
use chancery.Prelude.{
  Option, none, some, Bool, true, false, not, ◌&&◌, ◌||◌, List, [], ◌∷◌, ◌++◌, if◌then◌else◌,
  Result, ok, raise, ◌>>=◌,
}
use chancery.Authorities.Types.{
  same_kind, Text, Kind, dns, ip, email, uri, upn, other, Entry, CaError, san_prefix, san_value,
}
use chancery.Authorities.Text.{
  codes, same_text, is_empty, lower, upper, lstrip, rstrip, is_dot, strip, starts_with, ends_with,
  contains, partition, after_last, is_hostname,
}

pub record NameLib : Type 0 where
  -- `ip_address(name) in ip_network(constraint)`; false where one of them does not parse.
  pub ip_in_network : Text → Text → Bool
  -- `urlsplit(name).hostname or ""`
  pub url_host : Text → Text

-- `_PREFIXES` of san.py; a prefix is compared in upper case.
abbrev pub prefix_kind : Text → Option Kind
prefix_kind t =
    if same_text t (codes "DNS")
    then some dns
    else if same_text t (codes "IP")
    then some ip
    else if same_text t (codes "EMAIL")
    then some email
    else if same_text t (codes "URI")
    then some uri
    else if same_text t (codes "UPN")
    then some upn
    else none

-- `label` of san.py
abbrev pub label : Kind → Text
label dns = codes "DNS"
label ip = codes "IP"
label email = codes "EMAIL"
label uri = codes "URI"
label upn = codes "UPN"
label other = codes "OTHER"

abbrev typed_entry : Text × Text → Result CaError (Option Entry)
typed_entry p = elim (prefix_kind (upper (strip p.0))) [
  | none ↦ raise san_prefix
  | some k ↦
      if is_empty (strip p.1)
      then raise san_value
      else ok (some (record { kind = k; value = strip p.1 }))
]

-- `san.parse_entry`
unfoldable pub parse_entry : Text → Result CaError (Option Entry)
parse_entry entry =
    let raw = strip entry in
    if is_empty raw then ok none else elim (partition 58 raw) [
      | some p ↦ typed_entry p
      | none ↦ ok (some (record { kind = dns; value = raw }))
    ]

abbrev pub entry_text : Entry → Text
entry_text e = label e.kind ++ 58 ∷ e.value

-- `general_name_to_string`
abbrev pub print_entry : Entry → Option Text
print_entry e = if same_kind e.kind other then none else some (entry_text e)

-- `kind in KINDS`
abbrev pub is_constrained : Kind → Bool
is_constrained dns = true
is_constrained ip = true
is_constrained email = true
is_constrained uri = true
is_constrained upn = false
is_constrained other = false

abbrev keep_entry : Option Entry → List Entry → List Entry
keep_entry none rest = rest
keep_entry (some e) rest = if is_constrained e.kind then e ∷ rest else rest

unfoldable pub san_names : List Text → Result CaError (List Entry)
unfolding parse_entry
san_names [] = ok []
san_names (t ∷ ts) =
    let rest = san_names ts in parse_entry t >>= λ e. rest >>= λ es. ok (keep_entry e es)

unfoldable pub looks_like_hostname : Text → Bool
unfolding is_hostname
looks_like_hostname cn = not (is_empty cn) && is_hostname (strip cn)

-- `requested_names`, the Common Name of the subject as an optional text.
unfoldable pub requested_names : Option Text → List Text → Result CaError (List Entry)
unfolding san_names looks_like_hostname
requested_names none sans = san_names sans
requested_names (some cn) sans = san_names sans >>= λ names. ok (
    if looks_like_hostname cn
    then names ++ record { kind = dns; value = rstrip is_dot (lower (strip cn)) } ∷ []
    else names)

abbrev pub drop2 : Text → Text
drop2 [] = []
drop2 (c ∷ []) = []
drop2 (c ∷ d ∷ s) = s

abbrev pub normal : Text → Text
normal t = rstrip is_dot (lower t)

-- `_dns_within` after the two `lower().rstrip(".")`.
unfoldable pub dns_inside : Text → Text → Bool
dns_inside name constraint =
    if starts_with (42 ∷ 46 ∷ []) name
    then same_text (drop2 name) (lstrip is_dot constraint)
      || ends_with (46 ∷ lstrip is_dot constraint) (drop2 name)
    else if starts_with (46 ∷ []) constraint
    then ends_with constraint name
    else same_text name constraint || ends_with (46 ∷ constraint) name

unfoldable pub dns_within : Text → Text → Bool
unfolding dns_inside
dns_within name constraint = dns_inside (normal name) (normal constraint)

unfoldable pub email_within : Text → Text → Bool
email_within name constraint =
    let host = after_last 64 (lower name) in
    let c = lower constraint in
    if contains 64 c
    then same_text (lower name) c
    else if starts_with (46 ∷ []) c
    then ends_with c host
    else same_text host c

unfoldable pub uri_within : NameLib → Text → Text → Bool
uri_within lib name constraint =
    let host = normal (lib.url_host name) in
    let c = normal constraint in
    if is_empty host
    then false
    else if starts_with (46 ∷ []) c
    then ends_with c host
    else same_text host c

-- `_WITHIN[kind]`
unfoldable pub within : NameLib → Kind → Text → Text → Bool
unfolding dns_within email_within uri_within
within lib dns name constraint = dns_within name constraint
within lib ip name constraint = lib.ip_in_network name constraint
within lib email name constraint = email_within name constraint
within lib uri name constraint = uri_within lib name constraint
within lib upn name constraint = false
within lib other name constraint = false
