-- ===== src/Nullifier.antt =====
-- crates/aegis-trust/src/nullifier.rs: the registry of spent reputation nullifiers.
--
-- Hash maps are association lists and hash sets lists without repetitions. Reading and writing the
-- JSON file is left out, except for the hexadecimal form of a nullifier; the text that is parsed is
-- the trimmed one.
pub mod Spent
pub mod Merge
pub mod Hex
mod Tests
use anonymous.Common.Maps.{lookup, insert, remove}
use anonymous.Common.Results.{Result, ok, err, ◌>>=◌}
use anonymous.Common.{
  ℕ, zero, suc, ◌+◌, ◌-◌, ◌*◌, ◌/◌, ◌%◌, Bool, true, false, ◌&&◌, ◌||◌, Option, none, some, List,
  [], ◌∷◌, ◌++◌, length, ltb, leb, ◌==◌, if◌then◌else◌, bytes_eq,
}

-- `[u8; 32]`.
abbrev pub ReputationNullifier : Type 0
ReputationNullifier = List ℕ

pub data NullifierError : Type 0 where
  already_used : ℕ → NullifierError
  merge_conflict : ℕ → List ℕ → NullifierError
  io json : NullifierError
  unsupported_version : ℕ → NullifierError
  invalid_nullifier_hex : List ℕ → NullifierError

pub record NullifierRegistry : Type 0 where
  pub used : List (ℕ × List ReputationNullifier)

pub record NullifierMergeReport : Type 0 where
  pub added : ℕ
  pub already_present : ℕ

unfoldable pub contains : List ReputationNullifier → ReputationNullifier → Bool
contains [] nullifier = false
contains (n ∷ set) nullifier = bytes_eq nullifier n || contains set nullifier

abbrev pub set_of : Option (List ReputationNullifier) → List ReputationNullifier
set_of none = []
set_of (some set) = set

pub NullifierRegistry_new : NullifierRegistry
NullifierRegistry_new = record { used = [] }

pub is_spent : NullifierRegistry → ℕ → ReputationNullifier → Bool
is_spent r epoch nullifier = contains (set_of (lookup epoch r.used)) nullifier

pub epoch_len : NullifierRegistry → ℕ → ℕ
epoch_len r epoch = length (set_of (lookup epoch r.used))

-- The entry of the epoch is there afterwards in either case.
pub try_register :
    NullifierRegistry
    → ℕ
    → ReputationNullifier
    → NullifierRegistry × Result NullifierError (Unit {0})
try_register r epoch nullifier =
    let set = set_of (lookup epoch r.used) in
    if contains set nullifier
    then (record { used = insert epoch set r.used }, err (already_used epoch))
    else (record { used = insert epoch (nullifier ∷ set) r.used }, ok tt)

pub forget_epoch : NullifierRegistry → ℕ → NullifierRegistry
forget_epoch r epoch = record { used = remove epoch r.used }

-- The inner loop of `merge`.
pub merge_set :
    NullifierRegistry
    → ℕ
    → List ReputationNullifier
    → NullifierMergeReport
    → NullifierRegistry × Result NullifierError NullifierMergeReport
merge_set r epoch [] report = (r, ok report)
merge_set r epoch (nullifier ∷ set) report =
    let present =
      merge_set r epoch set (record report { already_present = report.already_present + 1 }) in
    let (r', registered) = try_register r epoch nullifier in
    let fresh = merge_set r' epoch set (record report { added = report.added + 1 }) in
    if is_spent r epoch nullifier
    then present
    else elim registered [ err e ↦ (r', err e) | ok u ↦ fresh ]

-- The outer loop.
pub merge_epochs :
    NullifierRegistry
    → List (ℕ × List ReputationNullifier)
    → NullifierMergeReport
    → NullifierRegistry × Result NullifierError NullifierMergeReport
merge_epochs r [] report = (r, ok report)
merge_epochs r (entry ∷ entries) report =
    let (r', merged) = merge_set r entry.0 entry.1 report in
    elim merged [ err e ↦ (r', err e) | ok report' ↦ merge_epochs r' entries report' ]

pub merge :
    NullifierRegistry
    → NullifierRegistry
    → NullifierRegistry × Result NullifierError NullifierMergeReport
merge r other = merge_epochs r other.used (record { added = 0; already_present = 0 })

-- `format!("{b:02x}")`, a digit.
abbrev pub hex_digit : ℕ → ℕ
hex_digit n = if ltb n 10 then b'0' + n else b'a' + (n - 10)

unfoldable pub hex_encode_32 : List ℕ → List ℕ
hex_encode_32 [] = []
hex_encode_32 (b ∷ bytes) = hex_digit (b / 16) ∷ hex_digit (b % 16) ∷ hex_encode_32 bytes

pub hex_nibble : ℕ → Option ℕ
hex_nibble b =
    if leb b'0' b && leb b b'9'
    then some (b - b'0')
    else if leb b'a' b && leb b b'f'
    then some (b - b'a' + 10)
    else if leb b'A' b && leb b b'F'
    then some (b - b'A' + 10)
    else none

-- The loop over `chunks(2)`; `text` is the whole string, for the error.
pub parse_chunks : List ℕ → List ℕ → Result NullifierError (List ℕ)
parse_chunks text [] = ok []
parse_chunks text (c ∷ []) = err (invalid_nullifier_hex text)
parse_chunks text (c ∷ d ∷ rest) = elim (hex_nibble c) [
  | none ↦ err (invalid_nullifier_hex text)
  | some hi ↦ elim (hex_nibble d) [
    | none ↦ err (invalid_nullifier_hex text)
    | some lo ↦ elim (parse_chunks text rest) [ err e ↦ err e | ok out ↦ ok ((hi * 16 + lo) ∷ out) ]
  ]
]

pub parse_hex_32 : List ℕ → Result NullifierError ReputationNullifier
parse_hex_32 s = if length s == 64 then parse_chunks s s else err (invalid_nullifier_hex s)
