-- ===== src/Cell.antt =====
-- crates/aegis-crypto/src/cell.rs: the fixed-width 512-byte cell and its command byte.
use anonymous.Common.{
  ℕ, ◌≡◌, Option, none, some, List, arith, length, replicate, length-replicate, ◌==◌, ◌↔◌,
  if◌then◌else◌,
}

abbrev pub cell_len : ℕ
cell_len = 512

pub data Command : Type 0 where
  create extend data_cell drop_cell loop_to_self sphinx_fragment peer_health_advert : Command

-- `command as u8`.
unfoldable pub to_u8 : Command → ℕ
to_u8 create = 0x01
to_u8 extend = 0x02
to_u8 data_cell = 0x03
to_u8 drop_cell = 0x04
to_u8 loop_to_self = 0x05
to_u8 sphinx_fragment = 0x06
to_u8 peer_health_advert = 0x07

unfoldable pub from_u8 : ℕ → Option Command
from_u8 b =
    if b == 0x01
    then some create
    else if b == 0x02
    then some extend
    else if b == 0x03
    then some data_cell
    else if b == 0x04
    then some drop_cell
    else if b == 0x05
    then some loop_to_self
    else if b == 0x06
    then some sphinx_fragment
    else if b == 0x07
    then some peer_health_advert
    else none

-- The bytes of a cell, `[u8; 512]`.
abbrev pub Cell : Type 0
Cell = List ℕ

unfoldable pub zeroed : Cell
zeroed = replicate cell_len 0

-- A byte decodes to a command exactly if it is that command's byte.
pub from_u8-eq-some_iff : (b : ℕ) (c : Command) → (from_u8 b ≡ some c) ↔ (b ≡ to_u8 c)
unfolding from_u8 to_u8
from_u8-eq-some_iff b create = ground arith
from_u8-eq-some_iff b c = ground arith

pub length-zeroed : length zeroed ≡ cell_len
unfolding zeroed
length-zeroed = length-replicate {A = ℕ} cell_len 0
