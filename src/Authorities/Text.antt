-- ===== src/Authorities/Text.antt =====
-- The text operations of app/services/name_constraints.py and app/services/san.py, on lists of code
-- points: `lower`, `upper`, `strip`, `rstrip(".")`, `lstrip(".")`, `startswith`, `endswith`,
-- `partition(":")`, `rpartition("@")` and the host name pattern. Letters and white space are those of
-- ASCII, as a dNSName, an rfc822Name and a URI have no others.
use chancery.Prelude.{
  ℕ, ◌+◌, ◌-◌, ◌≡◌, refl, String, Option, none, some, Bool, true, false, not, ◌&&◌, ◌||◌, List, [],
  ◌∷◌, map, length, any_of, all_of, leb, ◌==◌, if◌then◌else◌,
}
use Prim.Native.Char.{code}
use Prim.Native.String as Str
use chancery.Authorities.Types.{Text}

abbrev pub codes : String → Text
codes Str.String.[] = []
codes (Str.String.◌∷◌ c s) = code c ∷ codes s

abbrev pub same_text : Text → Text → Bool
same_text [] [] = true
same_text [] (d ∷ t) = false
same_text (c ∷ s) [] = false
same_text (c ∷ s) (d ∷ t) = (c == d) && same_text s t

abbrev pub is_empty : Text → Bool
is_empty [] = true
is_empty (c ∷ s) = false

abbrev pub lower_code : ℕ → ℕ
lower_code c = if leb 65 c && leb c 90 then c + 32 else c

abbrev pub lower : Text → Text
lower = map lower_code

abbrev pub upper_code : ℕ → ℕ
upper_code c = if leb 97 c && leb c 122 then c - 32 else c

abbrev pub upper : Text → Text
upper = map upper_code

-- `s.lstrip(chars)` and `s.rstrip(chars)`, the characters as a test.
abbrev pub lstrip : (ℕ → Bool) → Text → Text
lstrip p [] = []
lstrip p (c ∷ s) = let rest = lstrip p s in if p c then rest else c ∷ s

abbrev pub rstrip : (ℕ → Bool) → Text → Text
rstrip p [] = []
rstrip p (c ∷ s) = let rest = rstrip p s in if p c && is_empty rest then [] else c ∷ rest

abbrev pub is_dot : ℕ → Bool
is_dot c = c == 46

abbrev pub is_space : ℕ → Bool
is_space c = c == 32 || (leb 9 c && leb c 13) || (leb 28 c && leb c 31)

abbrev pub strip : Text → Text
strip s = rstrip is_space (lstrip is_space s)

abbrev pub starts_with : Text → Text → Bool
starts_with [] s = true
starts_with (c ∷ t) [] = false
starts_with (c ∷ t) (d ∷ s) = (c == d) && starts_with t s

abbrev pub ends_with : Text → Text → Bool
ends_with t [] = is_empty t
ends_with t (c ∷ s) = same_text (c ∷ s) t || ends_with t s

abbrev pub contains : ℕ → Text → Bool
contains c = any_of (λ d. d == c)

-- `s.partition(":")` where there is a colon: before it and after it.
abbrev pub partition : ℕ → Text → Option (Text × Text)
partition mark [] = none
partition mark (c ∷ s) =
    let rest = partition mark s in
    if c == mark then some ([], s) else elim rest [ none ↦ none | some r ↦ some (c ∷ r.0, r.1) ]

-- `s.rpartition("@")[2]`
abbrev pub after_last : ℕ → Text → Text
after_last mark [] = []
after_last mark (c ∷ s) =
    let rest = after_last mark s in if contains mark s then rest else if c == mark then s else c ∷ s

abbrev pub is_alnum : ℕ → Bool
is_alnum c = (leb 48 c && leb c 57) || (leb 65 c && leb c 90) || (leb 97 c && leb c 122)

abbrev pub last_is : (ℕ → Bool) → Text → Bool
last_is p [] = false
last_is p (c ∷ s) = if is_empty s then p c else last_is p s

abbrev pub first_is : (ℕ → Bool) → Text → Bool
first_is p [] = false
first_is p (c ∷ s) = p c

-- `(?!-)[A-Za-z0-9-]{1,63}(?<!-)`
unfoldable pub is_label : Text → Bool
is_label l =
    ((leb 1 (length l) && leb (length l) 63) && all_of (λ c. is_alnum c || c == 45) l)
    && not (first_is (λ c. c == 45) l || last_is (λ c. c == 45) l)

-- The parts between the dots.
unfoldable pub split_dots : Text → List Text
split_dots [] = [] ∷ []
split_dots (c ∷ s) = elim (split_dots s) [
  | [] ↦ []
  | part ∷ parts ↦ if is_dot c then [] ∷ part ∷ parts else (c ∷ part) ∷ parts
]

abbrev drop_dot : Text → Text
drop_dot [] = []
drop_dot (c ∷ s) = if is_dot c && is_empty s then [] else c ∷ drop_dot s

abbrev drop_wildcard : Text → Text
drop_wildcard [] = []
drop_wildcard (c ∷ []) = c ∷ []
drop_wildcard (c ∷ d ∷ s) = if c == 42 && is_dot d then s else c ∷ d ∷ s

-- `_HOSTNAME.match`
unfoldable pub is_hostname : Text → Bool
unfolding is_label split_dots
is_hostname s =
    let parts = split_dots (drop_dot (drop_wildcard s)) in
    leb 2 (length parts) && all_of is_label parts

hostname_wildcard : is_hostname (codes "*.a-b.example.") ≡ true
unfolding is_hostname
hostname_wildcard = refl

hostname_one_label : is_hostname (codes "example") ≡ false
unfolding is_hostname
hostname_one_label = refl

hostname_dash : is_hostname (codes "a.-b") ≡ false
unfolding is_hostname
hostname_dash = refl
