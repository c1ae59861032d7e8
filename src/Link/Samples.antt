-- ===== src/Link/Samples.antt =====
-- An AEAD without secrecy, on which the theorems about frames are tried.
use anonymous.Common.{
  ℕ, ◌+◌, ◌-◌, ◌≡◌, refl, sym, ap, ◌∙◌, Option, none, some, List, [], ◌++◌, length, arith, take,
  replicate, length-append, take_of_append,
}
use anonymous.Link.{Aead, link_tag_len}

abbrev pub tagged : List ℕ → List ℕ
tagged msg = msg ++ replicate link_tag_len 0

abbrev pub untagged : List ℕ → List ℕ
untagged ct = take (length ct - link_tag_len) ct

abbrev value : Option (List ℕ) → List ℕ
value none = []
value (some xs) = xs

pub length-tagged : (msg : List ℕ) → length (tagged msg) ≡ length msg + link_tag_len
length-tagged msg = length-append msg (replicate link_tag_len 0)

pub untagged-tagged : (msg : List ℕ) → untagged (tagged msg) ≡ msg
untagged-tagged msg =
    let e : length (tagged msg) - link_tag_len ≡ length msg = omega (arith, length-tagged msg) in
    ap (λ n. take n (tagged msg)) e
    ∙ take_of_append (length msg) msg (replicate link_tag_len 0) refl

pub some_inj : (xs ys : List ℕ) → some xs ≡ some ys → xs ≡ ys
some_inj xs ys e = ap value e

abbrev pub toy_aead : Aead
toy_aead = record {
  encrypt = λ key nonce aad msg. some (tagged msg);
  decrypt = λ key nonce aad ct. some (untagged ct);
  length-encrypt =
      λ key nonce aad msg ct e. (ap length (sym (some_inj (tagged msg) ct e)) ∙ length-tagged msg);
  decrypt-encrypt = λ key nonce aad msg ct e.
      ap some (ap untagged (sym (some_inj (tagged msg) ct e)) ∙ untagged-tagged msg);
}
