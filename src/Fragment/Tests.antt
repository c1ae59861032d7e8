-- ===== src/Fragment/Tests.antt =====
-- The theorems on fragmentation at concrete cells.
use anonymous.Common.{
  ℕ, ◌≡◌, ◌≢◌, refl, none, List, [], ◌∷◌, arith, length, replicate, length-replicate,
}
use anonymous.Common.Results.{ok, err}
use anonymous.Cell.{from_u8, zeroed, length-zeroed}
use anonymous.Fragment.{
  malformed, encode_fragment_cell, fragment, reassemble, new, push, decode_fragment_cell,
  decode_command,
}
use anonymous.Fragment.Cells.{decoded, decode-encode, length-encode_fragment_cell}
use anonymous.Fragment.RoundTrip.{reassemble-fragment}
use anonymous.Fragment.Errors.{IsBounded, IsWhole, new-IsBounded, push-IsBounded, push_refused}

packet : List ℕ
packet = replicate 8512 7

length-packet : length packet ≡ 8512
unfolding packet
length-packet = length-replicate {A = ℕ} 8512 7

abbrev id : List ℕ
id = 1 ∷ 2 ∷ 3 ∷ 4 ∷ 5 ∷ 6 ∷ 7 ∷ 8 ∷ []

abbrev other_id : List ℕ
other_id = 0 ∷ 2 ∷ 3 ∷ 4 ∷ 5 ∷ 6 ∷ 7 ∷ 8 ∷ []

length-encode_fragment_cell_example : length (encode_fragment_cell id 17 packet) ≡ 512
length-encode_fragment_cell_example =
    length-encode_fragment_cell id 17 packet refl length-packet (omega arith)

decode-encode_example :
    decode_fragment_cell (encode_fragment_cell id 3 packet)
    ≡ ok (decoded id 3 packet refl length-packet (omega arith))
decode-encode_example = decode-encode id 3 packet refl length-packet (omega arith)

reassemble-fragment_example : reassemble (fragment packet id) ≡ ok packet
reassemble-fragment_example = reassemble-fragment id packet refl length-packet

push-IsBounded_example : IsBounded (push new zeroed).0 × IsWhole (push new zeroed).1
push-IsBounded_example = push-IsBounded new zeroed length-zeroed new-IsBounded

push-zeroed : (push new zeroed).1 ≡ err (malformed "command")
unfolding push decode_fragment_cell decode_command from_u8 zeroed
push-zeroed = refl

push_refused_example :
    ((push new zeroed).0.expected_index ≡ new.expected_index) × ((push new zeroed).0.buf ≡ new.buf)
push_refused_example = push_refused new zeroed (malformed "command") push-zeroed

new_idle : new.packet_id ≡ none
unfolding new
new_idle = refl

not_expected : 3 ≢ new.expected_index
unfolding new
not_expected = omega arith
