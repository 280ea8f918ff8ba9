-- ===== src/Ingest/SchemaVersion.antt =====
-- src/collectmind/ingest/schema_version.py: SchemaVersionChecker.
pub mod Semver
use snts_collectmind.Prelude.{
  ℕ, ◌+◌, ◌-◌, ◌*◌, Bool, true, false, not, Option, none, some, List, [], ◌∷◌, Text, is_digit,
  nat_eq, is_empty, if◌then◌else◌,
}

pub data Code : Type 0 where
  schema_version_malformed schema_version_unsupported : Code

pub record SchemaVersionResult : Type 0 where
  pub ok : Bool
  pub code : Option Code
  pub supported_major : ℕ
  pub parsed : Option (ℕ × ℕ × ℕ)

-- The longest run of digits, and what follows it: [0-9]+ matched greedily.
unfoldable pub span_digits : Text → Text × Text
span_digits [] = ([], [])
span_digits (c ∷ s) =
    let rest = span_digits s in if is_digit c then (c ∷ rest.0, rest.1) else ([], c ∷ s)

-- int(g) for a group of digits
unfoldable pub int_from : ℕ → Text → ℕ
int_from n [] = n
int_from n (c ∷ s) = int_from (10 * n + (c - b'0')) s

-- One group of digits that is not empty.
unfoldable pub group : Text → Option (Text × Text)
unfolding span_digits
group s = let r = span_digits s in if is_empty r.0 then none else some r

-- The literal dot.
unfoldable pub dot : Text → Option Text
dot [] = none
dot (c ∷ s) = if nat_eq c b'.' then some s else none

-- `$` matches at the end, and before a newline at the end.
unfoldable pub at_end : Text → Bool
at_end [] = true
at_end (c ∷ []) = nat_eq c 10
at_end (c ∷ d ∷ s) = false

infixl 5 ◌>>=◌
abbrev pub ◌>>=◌ {ℓ κ} : {A : Type ℓ} {B : Type κ} → Option A → (A → Option B) → Option B
none >>= f = none
some a >>= f = f a

-- _SEMVER.match(version), with the groups.
unfoldable pub semver : Text → Option (Text × Text × Text)
unfolding group dot at_end
semver version = do
  major ← group version
  after_major ← dot major.1
  minor ← group after_major
  after_minor ← dot minor.1
  patch ← group after_minor
  if at_end patch.1 then some (major.0, minor.0, patch.0) else none

abbrev pub malformed : ℕ → SchemaVersionResult
malformed supported = record {
  ok = false;
  code = some schema_version_malformed;
  supported_major = supported;
  parsed = none;
}

unfoldable pub judge_version : ℕ → Option (Text × Text × Text) → SchemaVersionResult
unfolding int_from
judge_version supported none = malformed supported
judge_version supported (some (a, b, c)) =
    let parsed = some (int_from 0 a, int_from 0 b, int_from 0 c) in
    if not (nat_eq (int_from 0 a) supported)
    then record {
      ok = false;
      code = some schema_version_unsupported;
      supported_major = supported;
      parsed = parsed;
    }
    else record { ok = true; code = none; supported_major = supported; parsed = parsed }

-- `supported` is the checker's major version.
unfoldable pub check : ℕ → Option Text → SchemaVersionResult
unfolding judge_version semver
check supported none = malformed supported
check supported (some []) = malformed supported
check supported (some (c ∷ version)) = judge_version supported (semver (c ∷ version))
