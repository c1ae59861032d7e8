-- ===== src/Relay/Samples.antt =====
-- A channel that is a list, on which the theorems about relays are tried.
use anonymous.Common.{
  ℕ, ◌≡◌, ◌≢◌, refl, Bool, true, false, List, [], ◌∷◌, ◌++◌, length, ltb, arith, ltb→lt,
}
use anonymous.Relay.Channels.{
  TrySend, accepted, full, closed, TryRecv, received, empty, SendLaw, RecvLaw, Mpsc,
}

pub record ListChannel (A : Type 0) : Type 0 where
  pub items : List A
  pub room : ℕ

module _ {A : Type 0} where
  abbrev pub send_if : Bool → ListChannel A → A → TrySend × ListChannel A
  send_if true c a = (accepted, record c { items = c.items ++ (a ∷ []) })
  send_if false c a = (full, c)

  abbrev pub recv_of : List A → ListChannel A → TryRecv A × ListChannel A
  recv_of [] c = (empty, c)
  recv_of (a ∷ items) c = (received a, record c { items = items })

  pub send_if-law :
      (b : Bool) (c : ListChannel A) (a : A)
      → ltb (length c.items) c.room ≡ b
      → SendLaw c.room c.items (send_if b c a).1.items a (send_if b c a).0
  send_if-law true c a e = (ltb→lt (length c.items) c.room e, refl)
  send_if-law false c a e = (ground (arith, e), refl)

  pub send_if-room : (b : Bool) (c : ListChannel A) (a : A) → (send_if b c a).1.room ≡ c.room
  send_if-room true c a = refl
  send_if-room false c a = refl

  pub recv_of-law :
      (items : List A) (c : ListChannel A)
      → c.items ≡ items
      → RecvLaw items (recv_of items c).1.items (recv_of items c).0
  recv_of-law [] c e = (refl, e)
  recv_of-law (a ∷ items) c e = refl

  pub recv_of-room : (items : List A) (c : ListChannel A) → (recv_of items c).1.room ≡ c.room
  recv_of-room [] c = refl
  recv_of-room (a ∷ items) c = refl

  pub send_if-open : (b : Bool) (c : ListChannel A) (a : A) → (send_if b c a).0 ≢ closed
  send_if-open true c a = λ e. cc
  send_if-open false c a = λ e. cc

abbrev pub list_channel : (A : Type 0) → Mpsc A
list_channel A = record {
  Channel = ListChannel A;
  new = λ n. record { items = []; room = n };
  try_send = λ c a. send_if (ltb (length c.items) c.room) c a;
  try_recv = λ c. recv_of c.items c;
  contents = λ c. c.items;
  capacity = λ c. c.room;
  contents-new = λ n. refl;
  capacity-new = λ n. refl;
  try_send_law = λ c a. send_if-law (ltb (length c.items) c.room) c a refl;
  try_recv_law = λ c. recv_of-law c.items c refl;
  capacity-try_send = λ c a. send_if-room (ltb (length c.items) c.room) c a;
  capacity-try_recv = λ c. recv_of-room c.items c;
}
