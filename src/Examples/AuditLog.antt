-- ===== src/Examples/AuditLog.antt =====
-- Two audit rows, sealed, anchored and pruned, with a digest that only puts a text on one line.
use chancery.Prelude.{
  ℕ, zero, suc, ◌+◌, ◌≡◌, ◌≢◌, refl, String, Option, none, some, true, false, List, [], ◌∷◌, length,
  ◌⊎◌, inl, inr, ◌↔◌, arith, ◌==◌, if◌then◌else◌, Bool-cases, days,
}
use Prim.Native.Char.{Char, code}
use Prim.Native.String as Str
use text.Mathlib.TextLemmas.{cons≢nil}
use chancery.Audit.Row.{
  Row, Library, CheckpointDetails, is_sealed, canonical, message, compute_hash,
}
use chancery.Audit.Seal.{last_where, seal}
use chancery.Audit.Verify.{verify, begin, checkpoint_for, walk, check_row, later_sealed}
use chancery.Audit.Chain.{Ascending}
use chancery.Audit.Intact.{Intact, verify-iff-Intact}
use chancery.Audit.Tamper.{NoNewline, IsDigest, Collision, BeginsChain, covered, tamper_evidence}
use chancery.Audit.Prune.{prune}
use chancery.Audit.SealVerify.{seal-verify}
use chancery.Audit.PruneKeeps.{IsJson, prune-verify}
use chancery.Audit.Blind.{seal_all, Unchecked, unsealed_first_row_blinds}

one_line : String → String
one_line Str.String.[] = "#"
one_line (Str.String.◌∷◌ c s) = Str.String.◌∷◌ (if code c == 10 then "/" else c) (one_line s)

one_line-ne : (s : String) → one_line s ≢ ""
unfolding one_line
one_line-ne Str.String.[] e = cons≢nil e
one_line-ne (Str.String.◌∷◌ c s) e = cons≢nil e

line_char : (c : Char) → code (if code c == 10 then "/" else c) ≢ 10
line_char c = elim (Bool-cases (code c == 10)) [
  | inl y ↦ rw y (omega arith)
  | inr n ↦ rw n (ground arith)
]

one_line-NoNewline : (s : String) → NoNewline (one_line s)
unfolding one_line
one_line-NoNewline Str.String.[] = (omega arith, tt)
one_line-NoNewline (Str.String.◌∷◌ c s) = (line_char c, one_line-NoNewline s)

-- Details as a text: the id in unary, a bar, the hash.
unary : ℕ → String → String
unary zero rest = rest
unary (suc n) rest = Str.String.◌∷◌ "I" (unary n rest)

encode_hash : Option String → String
encode_hash none = ""
encode_hash (some h) = Str.String.◌∷◌ "S" h

decode_hash : String → Option String
decode_hash Str.String.[] = none
decode_hash (Str.String.◌∷◌ c s) = some s

decode : ℕ → String → Option CheckpointDetails
decode n Str.String.[] = none
decode n (Str.String.◌∷◌ c s) = elim (code c == 73) [
  | true ↦ decode (suc n) s
  | false ↦ some (record { pruned_through_id = some n; pruned_through_hash = decode_hash s })
]

encode : ℕ → Option String → String
unfolding unary
encode n h = unary n (Str.String.◌∷◌ "|" (encode_hash h))

decode_hash-encode : (h : Option String) → decode_hash (encode_hash h) ≡ h
unfolding decode_hash encode_hash
decode_hash-encode none = refl
decode_hash-encode (some h) = refl

decode-encode :
    (m n : ℕ) (h : Option String)
    → decode m (encode n h)
      ≡ some (record { pruned_through_id = some (m + n); pruned_through_hash = h })
unfolding decode encode
decode-encode m zero h = ground (arith, decode_hash-encode h)
decode-encode m (suc n) h = ground (arith, decode-encode (suc m) n h)

encode-ne : (n : ℕ) (h : Option String) → encode n h ≢ ""
unfolding encode
encode-ne zero h e = cons≢nil e
encode-ne (suc n) h e = cons≢nil e

abbrev json : Library
json = record {
  sha256 = one_line;
  isoformat = λ t. "2026";
  dumps = λ f. f.action;
  dump_checkpoint = λ e. encode e.through_id e.through_hash;
  loads = decode 0;
}

json-IsDigest : IsDigest json
json-IsDigest = record { nonempty = one_line-ne; one_line = one_line-NoNewline }

json-IsJson : IsJson json
json-IsJson = record {
  not_empty = λ e. encode-ne e.through_id e.through_hash;
  reads_back = λ e. reads e.through_id e.through_hash;
}
  where
    reads :
        (n : ℕ) (h : Option String)
        → decode 0 (encode n h)
          ≡ some (record { pruned_through_id = some n; pruned_through_hash = h })
    reads n h = ground (arith, decode-encode 0 n h)

abbrev row : ℕ → String → Row
row n action = record {
  id = n;
  timestamp = some 0;
  user_id = none;
  username = "cli";
  action = action;
  target_type = none;
  target_id = none;
  details = none;
  ip_address = "local";
  prev_hash = none;
  entry_hash = none;
}

abbrev fresh : List Row
fresh = row 1 "login" ∷ row 2 "logout" ∷ []

abbrev table : List Row
table = (seal json (days 3) 5 fresh).1

program : Unit {0}
unfolding seal verify canonical message compute_hash one_line encode decode decode_hash encode_hash
    prune begin checkpoint_for walk check_row later_sealed last_where
program = tt

table-accepted : (verify json none table).is_ok ≡ true
unfolding program
table-accepted = refl

table-Ascending : Ascending 0 table
unfolding program
table-Ascending = omega arith

verify-iff-Intact_example : ((verify json none table).is_ok ≡ true) ↔ Intact json table
verify-iff-Intact_example = verify-iff-Intact json table table-Ascending

seal-verify_example : (verify json none (seal json (days 4) 5 table).1).is_ok ≡ true
seal-verify_example = seal-verify json (days 4) 5 table table-Ascending table-accepted

table-BeginsChain : BeginsChain json table
unfolding program
table-BeginsChain = (refl, refl)

tamper_evidence_example : (covered json table ≡ covered json table) ⊎ Collision json
tamper_evidence_example =
    tamper_evidence json table table json-IsDigest table-Ascending table-Ascending table-BeginsChain
      table-BeginsChain table-accepted table-accepted refl

abbrev pruned_table : List Row
pruned_table = (prune json (days 9) 2 false 3 (days 9) "cli" table).table

pruned_table-Ascending : Ascending 0 pruned_table
unfolding program
pruned_table-Ascending = omega arith

prune-verify_example : (verify json none pruned_table).is_ok ≡ true
prune-verify_example =
    prune-verify json (days 9) 2 false 3 (days 9) "cli" table json-IsDigest json-IsJson
      table-Ascending pruned_table-Ascending table-accepted

-- Both rows go, and the checkpoint stays.
pruned_table-length : length pruned_table ≡ 1
unfolding program
pruned_table-length = refl

-- The second row is sealed and the first one is not, and its hash fits nothing.
abbrev forged : Row
forged = record (row 2 "forged") { entry_hash = some "no digest" }

abbrev blinded : List Row
blinded = row 1 "login" ∷ forged ∷ []

unsealed_first_row_blinds_example :
    Unchecked json (seal_all json ((days 3, 5) ∷ (days 4, 0) ∷ []) blinded)
unfolding program
unsealed_first_row_blinds_example =
    unsealed_first_row_blinds json ((days 3, 5) ∷ (days 4, 0) ∷ []) (row 1 "login") forged
      (forged ∷ []) blinded-Ascending refl blinded-last
  where
    blinded-Ascending : Ascending 0 blinded
    blinded-Ascending = omega arith

    blinded-last : last_where is_sealed blinded ≡ some forged
    blinded-last = refl
