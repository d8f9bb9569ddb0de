-- ===== src/Audit/Retention.antt =====
-- Retention (`prune` of app/services/audit_chain.py): what is removed is a prefix of the table.
use chancery.Prelude.{
  ℕ, ◌+◌, ◌≤◌, ◌<◌, ◌≡◌, refl, ap, ◌∙◌, Bool, true, false, List, [], ◌∷◌, ◌++◌, filter_by, inl, inr,
  arith, ◌==◌, ==_refl, Bool-cases,
}
use chancery.Audit.Row.{Row}
use chancery.Audit.Prune.{last_row, delete_rows, contiguous, id_in}
use chancery.Audit.Chain.{Ascending}

Ascending-weaken : {lo lo' : ℕ} (rs : List Row) → lo' ≤ lo → Ascending lo rs → Ascending lo' rs
Ascending-weaken [] h a = tt
Ascending-weaken (r ∷ rs) h a = (omega arith, a.1)

pub Ascending-rest : (lo : ℕ) (xs ys : List Row) → Ascending lo (xs ++ ys) → Ascending lo ys
Ascending-rest lo [] ys a = a
Ascending-rest lo (x ∷ xs) ys a = Ascending-weaken ys (omega arith) (Ascending-rest x.id xs ys a.1)

contiguous-none :
    (n lo : ℕ) (p : Row → Bool) (rs : List Row)
    → Ascending lo rs
    → n ≤ lo
    → contiguous n (filter_by p rs) ≡ []
unfolding contiguous
contiguous-none n lo p [] a h = refl
contiguous-none n lo p (r ∷ rs) a h = ground (arith, contiguous-none n r.id p rs a.1)

-- The rows that count up from above `lo`, of those that pass a test, are a prefix of the table.
pub contiguous-prefix :
    (lo : ℕ) (p : Row → Bool) (rs : List Row)
    → Ascending lo rs
    → (rest : List Row) × (rs ≡ contiguous (lo + 1) (filter_by p rs) ++ rest)
unfolding contiguous
contiguous-prefix lo p [] a = ([], refl)
contiguous-prefix lo p (r ∷ rs) a = elim (Bool-cases (p r)) [
  | inr out ↦ (r ∷ rs, rw (out, contiguous-none (lo + 1) r.id p rs a.1 (omega arith)))
  | inl hit ↦ elim (Bool-cases (r.id == lo + 1)) [
    | inr off ↦ (r ∷ rs, rw (hit, off, contiguous))
    | inl on ↦
        let (rest, e) = contiguous-prefix r.id p rs a.1 in
        (rest, rw (hit, on, contiguous) (ap (◌∷◌ r) e))
  ]
]

-- Deleting the rows of a prefix leaves the rest.
id_in_self :
    (gone : List Row) (r : Row) (rs : List Row)
    → ((n : ℕ) → id_in n (r ∷ rs) ≡ true → id_in n gone ≡ true)
    → id_in r.id gone ≡ true
unfolding id_in
id_in_self gone r rs sub = sub r.id (rw (==_refl r.id))

id_in-cons : (n : ℕ) (r : Row) (rs : List Row) → id_in n rs ≡ true → id_in n (r ∷ rs) ≡ true
unfolding id_in
id_in-cons n r rs h = ground arith

lt-of-lt : (a b c : ℕ) → a < b → b < c → a < c
lt-of-lt a b c h k = omega arith

delete_rows-prefix :
    (gone pre rest : List Row)
    → ((n : ℕ) → id_in n pre ≡ true → id_in n gone ≡ true)
    → delete_rows gone (pre ++ rest) ≡ delete_rows gone rest
unfolding delete_rows
delete_rows-prefix gone [] rest sub = refl
delete_rows-prefix gone (r ∷ pre) rest sub =
    rw (id_in_self gone r pre sub)
      (delete_rows-prefix gone pre rest (λ n h. sub n (id_in-cons n r pre h)))

delete_rows-above :
    (gone : List Row) (lo : ℕ) (rest : List Row)
    → Ascending lo rest
    → ((n : ℕ) → lo < n → id_in n gone ≡ false)
    → delete_rows gone rest ≡ rest
unfolding delete_rows
delete_rows-above gone lo [] a h = refl
delete_rows-above gone lo (r ∷ rest) a h =
    rw (h r.id a.0)
      (ap (◌∷◌ r) (delete_rows-above gone r.id rest a.1 (λ n k. h n (lt-of-lt lo r.id n a.0 k))))

-- The last row of a prefix bounds it from above, and the rest from below.
pub Ascending-last :
    (lo : ℕ) (r : Row) (pre rest : List Row)
    → Ascending lo (r ∷ pre ++ rest)
    → Ascending (last_row r pre).id rest × (r.id ≤ (last_row r pre).id)
unfolding last_row
Ascending-last lo r [] rest a = (a.1, omega arith)
Ascending-last lo r (x ∷ pre) rest a =
    let (b, c) = Ascending-last r.id x pre rest a.1 in (b, omega (arith, c))

id_in-above :
    (lo : ℕ) (r : Row) (pre rest : List Row) (n : ℕ)
    → Ascending lo (r ∷ pre ++ rest)
    → (last_row r pre).id < n
    → id_in n (r ∷ pre) ≡ false
unfolding id_in last_row
id_in-above lo r [] rest n a h = ground arith
id_in-above lo r (x ∷ pre) rest n a h =
    ground (arith, id_in-above r.id x pre rest n a.1 h, (Ascending-last r.id x pre rest a.1).1)

-- `prune` deletes exactly the prefix that it archives.
pub delete_rows-rest :
    (lo : ℕ) (r : Row) (pre rest : List Row)
    → Ascending lo (r ∷ pre ++ rest)
    → delete_rows (r ∷ pre) (r ∷ pre ++ rest) ≡ rest
delete_rows-rest lo r pre rest a =
    delete_rows-prefix (r ∷ pre) (r ∷ pre) rest (λ n h. h)
    ∙ delete_rows-above (r ∷ pre) (last_row r pre).id rest (Ascending-last lo r pre rest a).0
        (λ n h. id_in-above lo r pre rest n a h)
