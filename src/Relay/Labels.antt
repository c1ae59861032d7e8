-- ===== src/Relay/Labels.antt =====
-- crates/aegis-relay/src/peer_health.rs: the labels by which reporters count as different.
--
-- A text is the list of its characters' codes.
use anonymous.Common.Texts.{ascii}
use anonymous.Nullifier.{hex_digit}
use anonymous.Common.{
  ℕ, ◌/◌, ◌%◌, Bool, ◌&&◌, ◌||◌, Option, none, some, List, [], ◌∷◌, ◌++◌, leb, ◌==◌, if◌then◌else◌,
}

-- `[u8; 32]` and `String`.
abbrev pub PeerId : Type 0
PeerId = List ℕ

abbrev pub Text : Type 0
Text = List ℕ

-- The characters with the property White_Space, which `trim` takes off both ends.
abbrev pub is_whitespace : ℕ → Bool
is_whitespace c =
    (leb 0x9 c && leb c 0xd)
    || (c == 0x20)
    || (c == 0x85)
    || (c == 0xa0)
    || (c == 0x1680)
    || (leb 0x2000 c && leb c 0x200a)
    || (c == 0x2028)
    || (c == 0x2029)
    || (c == 0x202f)
    || (c == 0x205f)
    || (c == 0x3000)

unfoldable pub trim_start : Text → Text
trim_start [] = []
trim_start (c ∷ text) = let rest = trim_start text in if is_whitespace c then rest else c ∷ text

unfoldable pub trim_end : Text → Text
trim_end [] = []
trim_end (c ∷ text) = elim (trim_end text) [
  | [] ↦ if is_whitespace c then [] else c ∷ []
  | d ∷ rest ↦ c ∷ d ∷ rest
]

unfoldable pub trim : Text → Text
trim text = trim_end (trim_start text)

unfoldable pub hex32 : PeerId → Text
hex32 [] = []
hex32 (b ∷ bytes) = hex_digit (b / 16) ∷ hex_digit (b % 16) ∷ hex32 bytes

-- A label with its prefix, if there is one that is not blank.
abbrev pub labelled : Text → Option Text → Option Text
labelled prefix none = none
labelled prefix (some label) = elim (trim label) [
  | [] ↦ none
  | c ∷ text ↦ some (prefix ++ (c ∷ text))
]

unfoldable pub gossip_diversity_key : Option Text → Option Text → PeerId → Text
gossip_diversity_key org_id jurisdiction reporter = elim (labelled (ascii "org:") org_id) [
  | some key ↦ key
  | none ↦ elim (labelled (ascii "jur:") jurisdiction) [
    | some key ↦ key
    | none ↦ ascii "rid:" ++ hex32 reporter
  ]
]

pub normalize_diversity_key : Text → PeerId → Text
normalize_diversity_key key reporter = elim (trim key) [
  | [] ↦ ascii "rid:" ++ hex32 reporter
  | c ∷ text ↦ c ∷ text
]
