-- ===== src/Relay/Ingress/Control.antt =====
-- Frames that the connection leaves aside, and frames of a packet.
use anonymous.Common.Results.{ok}
use anonymous.Common.{
  ℕ, ◌≡◌, refl, ◌∙◌, ◌⊎◌, inl, inr, true, false, none, some, List, length, get_or,
}
use anonymous.Cell.{Cell, drop_cell, loop_to_self, sphinx_fragment, from_u8, cell_len}
use anonymous.Fragment.{push}
use anonymous.CoverFlow.{is_discard_cover_fragment}
use anonymous.Link.{Aead, LinkKey, link_nonce_len, seal, open_frame}
use anonymous.Link.Frames.{open_frame-seal}
use anonymous.Relay.Channels.{Mpsc}
use anonymous.Relay.Rates.{Floats}
use anonymous.Relay.Health.Advert.{Ed25519}
use anonymous.Relay.Health.QuorumLog.{Disk}
use anonymous.Relay.Ingress.{Arrival, Session, Ingress, going, pushed, dispatch, turn}
use anonymous.Relay.Limits.{Rates, is_active, allow_frame}

module _ (aead : Aead) where
  -- The frame is the cell, sealed under some nonce.
  pub record IsSealed (key : LinkKey) (cell : Cell) (frame : List ℕ) : Type 0 where
    pub nonce : List ℕ
    pub nonce_len : length nonce ≡ link_nonce_len
    pub width : length cell ≡ cell_len
    pub sealed : seal aead key cell nonce ≡ ok frame

  pub IsSealed-opened :
      (key : LinkKey) (cell : Cell) (frame : List ℕ)
      → IsSealed key cell frame
      → open_frame aead key frame ≡ ok cell
  IsSealed-opened key cell frame s =
      (open_frame-seal aead key cell s.nonce frame s.width s.nonce_len s.sealed).1

-- Drop and loop cells, cells of cover flows, and cells with a byte that is no command.
abbrev pub IsAside : Cell → Type 0
IsAside cell =
    (from_u8 (get_or cell 0 0) ≡ some drop_cell)
    ⊎ (from_u8 (get_or cell 0 0) ≡ some loop_to_self)
    ⊎ (from_u8 (get_or cell 0 0) ≡ none)
    ⊎ ((from_u8 (get_or cell 0 0) ≡ some sphinx_fragment) × (is_discard_cover_fragment cell ≡ true))

module _ (aead : Aead) (q : Rates) (f : Floats) (ed : Ed25519) (disk : Disk) (m : Mpsc (List ℕ))
    (session : Session aead q f ed disk m) where
  abbrev In : Type 0
  In = Ingress aead q f ed disk m

  allow_frame-off :
      (now : ℕ) (s : In)
      → is_active q s.rate_limit.config ≡ false
      → allow_frame q now s.rate_limit ≡ (true, s.rate_limit)
  unfolding allow_frame
  allow_frame-off now s off = rw off refl

  -- With the limits off, an opened frame is dispatched.
  turn-opened :
      (s : In) (a : Arrival) (cell : Cell)
      → is_active q s.rate_limit.config ≡ false
      → open_frame aead session.session_key a.frame ≡ ok cell
      → turn aead q f ed disk m session s a
        ≡ dispatch aead q f ed disk m session a.unix_secs cell s (from_u8 (get_or cell 0 0))
  unfolding turn
  turn-opened s a cell off e =
      rw (allow_frame-off a.now s off, e) (rw (allow_frame-off a.now s off) refl)

  pub turn-aside :
      (s : In) (a : Arrival) (cell : Cell)
      → is_active q s.rate_limit.config ≡ false
      → open_frame aead session.session_key a.frame ≡ ok cell
      → IsAside cell
      → turn aead q f ed disk m session s a ≡ going s
  turn-aside s a cell off e (inl c) = turn-opened s a cell off e ∙ rw c refl
  turn-aside s a cell off e (inr (inl c)) = turn-opened s a cell off e ∙ rw c refl
  turn-aside s a cell off e (inr (inr (inl c))) = turn-opened s a cell off e ∙ rw c refl
  turn-aside s a cell off e (inr (inr (inr (c, d)))) = turn-opened s a cell off e ∙ rw c (rw d refl)

  pub turn-fragment :
      (s : In) (a : Arrival) (cell : Cell)
      → is_active q s.rate_limit.config ≡ false
      → open_frame aead session.session_key a.frame ≡ ok cell
      → from_u8 (get_or cell 0 0) ≡ some sphinx_fragment
      → is_discard_cover_fragment cell ≡ false
      → turn aead q f ed disk m session s a
        ≡ pushed aead q f ed disk m session s (push s.reassembler cell)
  turn-fragment s a cell off e c d = turn-opened s a cell off e ∙ rw c (rw d refl)
