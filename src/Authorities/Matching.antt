-- ===== src/Authorities/Matching.antt =====
-- The matching of wildcards and the text form of an entry (app/services/name_constraints.py,
-- app/services/san.py).
use chancery.Prelude.{
  Bool-cases, inl, inr, if_true, none, none-not_some, some_unique, sym, ap, ◌∙◌, ℕ, ◌≡◌, refl, sym,
  ap, ◌∙◌, some, Bool, true, false, ◌&&◌, ◌||◌, [], ◌∷◌, ◌++◌, inl, inr, arith, ◌==◌, ==_refl,
  Bool-cases, ok, if_false,
}
use chancery.Authorities.Types.{Text, Kind, same_kind, dns, ip, email, uri, upn, other, Entry}
use chancery.Authorities.Text.{
  same_text, is_empty, lower, lower_code, lstrip, rstrip, is_dot, is_space, strip, starts_with,
  ends_with,
}
use chancery.Authorities.Names.{
  parse_entry, entry_text, print_entry, label, normal, dns_inside, dns_within,
}

append-not_empty : (x y : Text) → is_empty y ≡ false → is_empty (x ++ y) ≡ false
append-not_empty [] y h = h
append-not_empty (c ∷ x) y h = refl

rstrip-append :
    (p : ℕ → Bool) (x y : Text)
    → is_empty (rstrip p y) ≡ false
    → rstrip p (x ++ y) ≡ x ++ rstrip p y
rstrip-append p [] y h = refl
rstrip-append p (c ∷ x) y h =
    let full = append-not_empty x (rstrip p y) h in
    rw (rstrip-append p x y h, full)
      (if_false (p c && false) [] (c ∷ (x ++ rstrip p y)) (ground arith))

lower-append : (x y : Text) → lower (x ++ y) ≡ lower x ++ lower y
lower-append [] y = refl
lower-append (c ∷ x) y = ap (λ t. lower_code c ∷ t) (lower-append x y)

normal-append : (x y : Text) → is_empty (normal y) ≡ false → normal (x ++ y) ≡ lower x ++ normal y
normal-append x y h =
    ap (rstrip is_dot) (lower-append x y) ∙ rstrip-append is_dot (lower x) (lower y) h

same_text_refl : (s : Text) → same_text s s ≡ true
same_text_refl [] = refl
same_text_refl (c ∷ s) = ground (arith, same_text_refl s, ==_refl c)

same_text-eq : (s t : Text) → same_text s t ≡ true → s ≡ t
same_text-eq [] [] h = refl
same_text-eq [] (d ∷ t) h = cc
same_text-eq (c ∷ s) [] h = cc
same_text-eq (c ∷ s) (d ∷ t) h =
    let head : c ≡ d = ground (arith, h) in
    let tail : same_text s t ≡ true = ground (arith, h) in rw (head, same_text-eq s t tail) refl

ends_with-append : (t x y : Text) → ends_with t y ≡ true → ends_with t (x ++ y) ≡ true
ends_with-append t [] y h = h
ends_with-append t (c ∷ x) y h = ground (arith, ends_with-append t x y h)

ends_with_refl : (c : ℕ) (t : Text) → ends_with (c ∷ t) (c ∷ t) ≡ true
ends_with_refl c t = ground (arith, same_text_refl t, ==_refl c)

-- Below a name that a wildcard reaches.
below :
    (d n l : Text)
    → (same_text n d || ends_with (46 ∷ d) n) ≡ true
    → ends_with (46 ∷ d) (l ++ 46 ∷ n) ≡ true
below d n l h = elim (Bool-cases (same_text n d)) [
  | inl y ↦ ends_with-append (46 ∷ d) l (46 ∷ n) (rw (same_text-eq n d y) (ends_with_refl 46 d))
  | inr other_ ↦
      let inside : ends_with (46 ∷ d) n ≡ true = ground (arith, h, other_) in
      ends_with-append (46 ∷ d) l (46 ∷ n) (ground (arith, inside))
]

-- No more than one dot in front.
abbrev pub OneDot : Text → Type 0
OneDot c = starts_with (46 ∷ 46 ∷ []) c ≡ false

lstrip_none : (c : Text) → starts_with (46 ∷ []) c ≡ false → lstrip is_dot c ≡ c
lstrip_none [] h = refl
lstrip_none (x ∷ c) h = let n : (x == 46) ≡ false = ground (arith, h) in rw n refl

lstrip_one : (c : Text) → OneDot c → starts_with (46 ∷ []) c ≡ true → 46 ∷ lstrip is_dot c ≡ c
lstrip_one [] o h = cc
lstrip_one (x ∷ []) o h = let dot : x ≡ 46 = ground (arith, h) in rw dot refl
lstrip_one (x ∷ y ∷ c) o h =
    let dot : x ≡ 46 = ground (arith, h) in
    let rest : starts_with (46 ∷ []) (y ∷ c) ≡ false = ground (arith, o, dot) in
    rw dot (ap (λ t. 46 ∷ t) (lstrip_none (y ∷ c) rest))

not_star : (a : ℕ) → (a == 42) ≡ false → (42 == lower_code a) ≡ false
not_star a h = ground (arith, h)

inside_wildcard :
    (n c : Text)
    → dns_inside (42 ∷ 46 ∷ n) c ≡ true
    → (same_text n (lstrip is_dot c) || ends_with (46 ∷ lstrip is_dot c) n) ≡ true
unfolding dns_inside
inside_wildcard n c h = h

inside_label :
    (a : ℕ) (l n c : Text)
    → (42 == a) ≡ false
    → OneDot c
    → ends_with (46 ∷ lstrip is_dot c) (a ∷ (l ++ 46 ∷ n)) ≡ true
    → dns_inside (a ∷ (l ++ 46 ∷ n)) c ≡ true
unfolding dns_inside
inside_label a l n c s o h = elim (Bool-cases (starts_with (46 ∷ []) c)) [
  | inl y ↦ rw (s, y) (sym (ap (λ t. ends_with t (a ∷ (l ++ 46 ∷ n))) (lstrip_one c o y)) ∙ h)
  | inr none_ ↦
      let found : ends_with (46 ∷ c) (a ∷ (l ++ 46 ∷ n)) ≡ true =
        sym (ap (λ t. ends_with (46 ∷ t) (a ∷ (l ++ 46 ∷ n))) (lstrip_none c none_)) ∙ h in
      rw (s, none_) (ground (arith, found))
]

-- A wildcard that is inside a dNSName constraint of at most one leading dot has inside it every name
-- that it can match: each label that does not begin with a star, before the wildcard's base.
pub dns_within-wildcard :
    (a : ℕ) (l base constraint : Text)
    → (a == 42) ≡ false
    → is_empty (normal base) ≡ false
    → OneDot (normal constraint)
    → dns_within (42 ∷ 46 ∷ base) constraint ≡ true
    → dns_within ((a ∷ l) ++ 46 ∷ base) constraint ≡ true
unfolding dns_within
dns_within-wildcard a l base constraint star full one h =
    let wild = normal-append (42 ∷ 46 ∷ []) base full in
    let dotted = normal-append (46 ∷ []) base full in
    let dotted_full : is_empty (normal (46 ∷ base)) ≡ false = ap is_empty dotted in
    let name =
      normal-append (a ∷ l) (46 ∷ base) dotted_full ∙ ap (λ t. lower (a ∷ l) ++ t) dotted in
    let h' =
      inside_wildcard (normal base) (normal constraint)
        (sym (ap (λ t. dns_inside t (normal constraint)) wild) ∙ h) in
    ap (λ t. dns_inside t (normal constraint)) name
    ∙ inside_label (lower_code a) (lower l) (normal base) (normal constraint) (not_star a star) one
        (below (lstrip is_dot (normal constraint)) (normal base) (lower (a ∷ l)) h')

-- No white space at either end.
abbrev pub Stripped : Text → Type 0
Stripped t = (lstrip is_space t ≡ t) × (rstrip is_space t ≡ t)

Stripped-strip : (v : Text) → Stripped v → strip v ≡ v
Stripped-strip v s = ap (rstrip is_space) s.0 ∙ s.1

printed :
    (k : Kind) (v : Text)
    → same_kind k other ≡ false
    → Stripped v
    → is_empty v ≡ false
    → parse_entry (label k ++ 58 ∷ v) ≡ ok (some (record { kind = k; value = v }))
unfolding parse_entry
printed dns v c s f = rw (s.1, Stripped-strip v s, f) refl
printed ip v c s f = rw (s.1, Stripped-strip v s, f) refl
printed email v c s f = rw (s.1, Stripped-strip v s, f) refl
printed uri v c s f = rw (s.1, Stripped-strip v s, f) refl
printed upn v c s f = rw (s.1, Stripped-strip v s, f) refl
printed other v c s f = cc

-- An entry that is written for a SAN, of whatever kind, is read back as that name, where the value is
-- not empty and has no white space at its ends.
pub parse_entry-print_entry :
    (e : Entry) (t : Text)
    → print_entry e ≡ some t
    → Stripped e.value
    → is_empty e.value ≡ false
    → parse_entry t ≡ ok (some e)
parse_entry-print_entry e t p s f = elim (Bool-cases (same_kind e.kind other)) [
  | inl y ↦ none-not_some none refl (sym (if_true (same_kind e.kind other) _ _ y) ∙ p)
  | inr n ↦
      let same : entry_text e ≡ t =
        some_unique (sym (if_false (same_kind e.kind other) _ _ n) ∙ p) in
      ap parse_entry (sym same) ∙ printed e.kind e.value n s f
]
