-- ===== src/Link/Frames.antt =====
-- A sealed cell and its frame.
use anonymous.Common.Results.{ok}
use anonymous.Common.{
  ℕ, ◌≡◌, refl, sym, ap, ◌∙◌, List, ◌++◌, length, arith, take, drop, take_of_append, drop_of_append,
  length-append, Option-cases, inl, inr,
}
use anonymous.Cell.{Cell, cell_len}
use anonymous.Link.{Aead, LinkKey, link_nonce_len, link_frame_len, link_aad, seal, open_frame}

module _ (aead : Aead) where
  -- A cell of 512 bytes that was sealed under a nonce of 12 bytes has the one frame length,
  -- 12 + 512 + 16 = 540 bytes, and the same key opens it to the cell.
  pub open_frame-seal :
      (key : LinkKey) (cell : Cell) (nonce frame : List ℕ)
      → length cell ≡ cell_len
      → length nonce ≡ link_nonce_len
      → seal aead key cell nonce ≡ ok frame
      → (length frame ≡ link_frame_len) × (open_frame aead key frame ≡ ok cell)
  unfolding seal open_frame
  open_frame-seal key cell nonce frame hc hn sealed =
      elim (Option-cases (aead.encrypt key nonce link_aad cell)) [
        | inl e ↦ absurd (ground (arith, e, sealed))
        | inr (ct, e) ↦
            let same : nonce ++ ct ≡ frame = ground (arith, e, sealed) in
            let wide : length frame ≡ link_frame_len =
              ap length (sym same)
              ∙ omega (
                arith,
                length-append nonce ct,
                hn,
                hc,
                aead.length-encrypt key nonce link_aad cell ct e,
              ) in
            let front : take link_nonce_len frame ≡ nonce =
              ap (take link_nonce_len) (sym same) ∙ take_of_append link_nonce_len nonce ct hn in
            let back : drop link_nonce_len frame ≡ ct =
              ap (drop link_nonce_len) (sym same) ∙ drop_of_append link_nonce_len nonce ct hn in
            (
              wide,
              rw wide (
                  rw (front, back)
                    (rw (aead.decrypt-encrypt key nonce link_aad cell ct e) (rw hc refl))),
            )
      ]
