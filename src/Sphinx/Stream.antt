-- ===== src/Sphinx/Stream.antt =====
-- The hash loops as one key stream: XOR of a range, and the peel pad.
use Prim.Native.Nat.{bit_xor}
use anonymous.Common.Xor.{xor_at, xor_at-append}
use anonymous.Common.{
  ℕ, zero, suc, ◌+◌, ◌-◌, ◌≤◌, ◌≡◌, refl, sym, ap, ◌∙◌, true, false, List, [], ◌∷◌, ◌++◌, arith,
  length, get_or, set, take, min, ltb, leb, Bool-cases, inl, inr, length-take, length-append, tests,
  take_nil,
}
use anonymous.Kem.{Primitives, SharedSecret}
use anonymous.Sphinx.{le_bytes, xor_block, hash_block, stream_loop, stream_xor_range}

xor_at_one :
    (buf : List ℕ) (pos byte : ℕ)
    → set buf pos (bit_xor (get_or buf pos 0) byte) ≡ xor_at pos (byte ∷ []) buf
unfolding xor_at
xor_at_one [] zero byte = refl
xor_at_one [] (suc pos) byte = refl
xor_at_one (b ∷ buf) zero byte = refl
xor_at_one (b ∷ buf) (suc pos) byte = ap (◌∷◌ b) (xor_at_one buf pos byte)

xor_at_none : (pos : ℕ) (buf : List ℕ) → xor_at pos [] buf ≡ buf
unfolding xor_at
xor_at_none zero buf = refl
xor_at_none (suc pos) [] = refl
xor_at_none (suc pos) (b ∷ buf) = ap (◌∷◌ b) (xor_at_none pos buf)

-- One block of the loop: `end - pos` bytes of it at most.
xor_block_lem :
    (block : List ℕ) (end : ℕ) (buf : List ℕ) (pos : ℕ)
    → xor_block block end buf pos
      ≡ (xor_at pos (take (end - pos) block) buf, pos + min (end - pos) (length block))
unfolding xor_block
xor_block_lem [] end buf pos = ground (arith, take_nil {A = ℕ} (end - pos), xor_at_none pos buf)
xor_block_lem (byte ∷ block) end buf pos = elim (Bool-cases (leb end pos)) [
  | inl stop ↦
      let e : end - pos ≡ 0 = omega (tests, stop) in
      rw stop (ground (arith, e, xor_at_none pos buf))
  | inr more ↦
      let e : end - pos ≡ suc (end - (pos + 1)) = ground (arith, more) in
      let rest =
        xor_block_lem block end (set buf pos (bit_xor (get_or buf pos 0) byte)) (pos + 1) in
      rw more (
        ground (
          arith,
          e,
          rest,
          xor_at_one buf pos byte,
          xor_at-append pos (pos + 1) (byte ∷ []) (take (end - (pos + 1)) block) buf refl,
        ))
]

-- The first `n` bytes of the hash blocks from `counter` on.
module _ (p : Primitives) (domain : List ℕ) (secret : SharedSecret) where
  pub stream_key : ℕ → ℕ → ℕ → List ℕ
  stream_key zero counter n = []
  stream_key (suc fuel) counter n =
      take n (hash_block p domain secret counter) ++ stream_key fuel (counter + 1) (n - 32)

  pub key_stream : ℕ → List ℕ
  key_stream n = stream_key n 0 n

  length-stream_key : (fuel counter n : ℕ) → n ≤ fuel → length (stream_key fuel counter n) ≡ n
  unfolding stream_key
  length-stream_key zero counter n h = omega arith
  length-stream_key (suc fuel) counter n h = omega (
    arith,
    length-append (take n (hash_block p domain secret counter))
        (stream_key fuel (counter + 1) (n - 32)),
    length-take n (hash_block p domain secret counter),
    p.length-sha3_256 (domain ++ (secret ++ le_bytes 8 counter)),
    length-stream_key fuel (counter + 1) (n - 32) (omega arith),
  )

  pub length-key_stream : (n : ℕ) → length (key_stream n) ≡ n
  unfolding key_stream
  length-key_stream n = length-stream_key n 0 n (omega arith)

  stream_key-zero : (fuel counter : ℕ) → stream_key fuel counter 0 ≡ []
  unfolding stream_key
  stream_key-zero zero counter = refl
  stream_key-zero (suc fuel) counter = stream_key-zero fuel (counter + 1)

  stream_loop_step :
      (fuel counter pos end : ℕ) (buf : List ℕ)
      → ltb pos end ≡ true
      → stream_loop p (suc fuel) domain secret counter pos end buf
        ≡ stream_loop p fuel domain secret
            (counter + 1)
            (pos + min (end - pos) (length (hash_block p domain secret counter)))
            end
            (xor_at pos (take (end - pos) (hash_block p domain secret counter)) buf)
  unfolding stream_loop
  stream_loop_step fuel counter pos end buf more = rw more (
      ap (λ (r : List ℕ × ℕ). stream_loop p fuel domain secret (counter + 1) r.1 end r.0)
        (xor_block_lem (hash_block p domain secret counter) end buf pos))

  stream_loop_stop :
      (fuel counter pos end : ℕ) (buf : List ℕ)
      → ltb pos end ≡ false
      → stream_loop p fuel domain secret counter pos end buf ≡ buf
  unfolding stream_loop
  stream_loop_stop zero counter pos end buf stop = refl
  stream_loop_stop (suc fuel) counter pos end buf stop = rw stop

  stream_loop_lem :
      (fuel counter pos end : ℕ) (buf : List ℕ)
      → end - pos ≤ fuel
      → stream_loop p fuel domain secret counter pos end buf
        ≡ xor_at pos (stream_key fuel counter (end - pos)) buf
  unfolding stream_key
  stream_loop_lem zero counter pos end buf h =
      stream_loop_stop zero counter pos end buf (ground arith) ∙ sym (xor_at_none pos buf)
  stream_loop_lem (suc fuel) counter pos end buf h = elim (Bool-cases (ltb pos end)) [
    | inr stop ↦
        let e : end - pos ≡ 0 = ground (arith, stop) in
        stream_loop_stop (suc fuel) counter pos end buf stop
        ∙ sym (
            ap (λ k. xor_at pos k buf)
              (ap (stream_key (suc fuel) counter) e ∙ stream_key-zero (suc fuel) counter)
            ∙ xor_at_none pos buf)
    | inl more ↦
        let block = hash_block p domain secret counter in
        let len = p.length-sha3_256 (domain ++ (secret ++ le_bytes 8 counter)) in
        let next = pos + min (end - pos) (length block) in
        let left : end - next ≡ end - pos - 32 = omega (arith, len) in
        stream_loop_step fuel counter pos end buf more
        ∙ stream_loop_lem fuel (counter + 1) next end (xor_at pos (take (end - pos) block) buf)
            (omega (tests, len, more))
        ∙ ap
            (λ n.
              xor_at next (stream_key fuel (counter + 1) n)
                (xor_at pos (take (end - pos) block) buf))
            left
        ∙ xor_at-append pos next (take (end - pos) block)
            (stream_key fuel (counter + 1) (end - pos - 32)) buf
            (omega (arith, length-take (end - pos) block))
  ]

  -- `stream_xor_range` masks the range with the key stream and touches nothing else.
  pub stream_xor_range_lem :
      (buf : List ℕ) (start end : ℕ)
      → stream_xor_range p buf start end secret domain ≡ xor_at start (key_stream (end - start)) buf
  unfolding stream_xor_range key_stream
  stream_xor_range_lem buf start end = stream_loop_lem (end - start) 0 start end buf (omega arith)
