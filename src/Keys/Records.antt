-- ===== src/Keys/Records.antt =====
-- Target key aliases and what their constructor refuses (domain/models.py).
use soulmate.Prelude.{
  ℕ, ◌*◌, zero, suc, String, Bool, true, false, not, ◌&&◌, ◌||◌, Option, none, some, is_none, ◌==◌,
  eqb,
}
use soulmate.Float.{ℤ, pos, negsuc, Float, in_unit}
use soulmate.Text.{is_empty}

pub data EvidenceTargetType : Type 0 where
  fact preference goal constraint : EvidenceTargetType

pub data TargetKeyAliasMethod : Type 0 where
  normalized semantic owner : TargetKeyAliasMethod

pub data TargetKeyAliasStatus : Type 0 where
  active suggested rejected : TargetKeyAliasStatus

abbrev pub target_type_index : EvidenceTargetType → ℕ
target_type_index fact = 0
target_type_index preference = 1
target_type_index goal = 2
target_type_index constraint = 3

-- The order of the texts "constraint", "fact", "goal" and "preference"
abbrev pub type_order : EvidenceTargetType → ℕ
type_order constraint = 0
type_order fact = 1
type_order goal = 2
type_order preference = 3

abbrev pub status_index : TargetKeyAliasStatus → ℕ
status_index active = 0
status_index suggested = 1
status_index rejected = 2

abbrev pub is_active : TargetKeyAliasStatus → Bool
is_active active = true
is_active s = false

abbrev is_semantic : TargetKeyAliasMethod → Bool
is_semantic semantic = true
is_semantic m = false

abbrev pub is_preference : EvidenceTargetType → Bool
is_preference preference = true
is_preference t = false

-- `==` and `*` on integers
abbrev pub eq_int : ℤ → ℤ → Bool
eq_int (pos a) (pos b) = eqb a b
eq_int (pos a) (negsuc b) = false
eq_int (negsuc a) (pos b) = false
eq_int (negsuc a) (negsuc b) = eqb a b

abbrev negate : ℕ → ℤ
negate zero = pos 0
negate (suc n) = negsuc n

abbrev pub times_int : ℤ → ℤ → ℤ
times_int (pos a) (pos b) = pos (a * b)
times_int (pos a) (negsuc b) = negate (a * suc b)
times_int (negsuc a) (pos b) = negate (suc a * b)
times_int (negsuc a) (negsuc b) = pos (suc a * suc b)

pub record TargetKeyAlias : Type 0 where
  pub profile_id : String
  pub target_type : EvidenceTargetType
  pub alias_key : String
  pub canonical_key : String
  pub polarity : ℤ
  pub method : TargetKeyAliasMethod
  pub status : TargetKeyAliasStatus
  pub algorithm_version : String
  pub created_at : ℕ
  pub updated_at : ℕ
  pub similarity : Option Float

abbrev bad_similarity : Option Float → Bool
bad_similarity none = false
bad_similarity (some x) = not (in_unit x)

-- `TargetKeyAlias.__post_init__` raises unless this holds.
unfoldable pub alias_ok : TargetKeyAlias → Bool
alias_ok a =
    not (is_empty a.alias_key || is_empty a.canonical_key)
    && not (a.alias_key == a.canonical_key)
    && not (is_empty a.algorithm_version)
    && (eq_int a.polarity (pos 1) || eq_int a.polarity (negsuc 0))
    && not (eq_int a.polarity (negsuc 0) && not (is_preference a.target_type))
    && not (bad_similarity a.similarity)
    && not (is_semantic a.method && is_none a.similarity)
