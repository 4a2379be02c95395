-- ===== src/Sealed/Cipher.antt =====
-- `seal_in_place` and `open_in_place` of crates/km43/src/noise.rs. The cipher itself,
-- ChaCha20-Poly1305, is a third-party crate, and an `Aead` stands for it.
use km.Prelude.{
  ℕ, zero, suc, ◌/◌, ◌%◌, List, [], ◌∷◌, ◌++◌, replicate, length, drop, Option, none, some, leb,
  ◌==◌, if◌then◌else◌, Result, ok, err,
}
use km.Sealed.Types.{NoiseError, truncated, decrypt, destination_too_small}

-- `encrypt_inout_detached` (the text and its tag) and `decrypt_inout_detached`, of a key, the
-- nonce's bytes, the associated data and the text, which they leave as long as it was.
pub record Aead : Type 0 where
  pub encrypt_detached : List ℕ → List ℕ → List ℕ → List ℕ → Option (List ℕ × List ℕ)
  pub decrypt_detached : List ℕ → List ℕ → List ℕ → List ℕ → List ℕ → Option (List ℕ)

abbrev pub tag_bytes : ℕ
tag_bytes = 16

-- `u64::to_le_bytes`, of `width` bytes.
abbrev pub le_bytes : ℕ → ℕ → List ℕ
le_bytes zero n = []
le_bytes (suc width) n = (n % 256) ∷ le_bytes width (n / 256)

abbrev pub nonce_bytes : ℕ → List ℕ
nonce_bytes nonce = replicate 4 0 ++ le_bytes 8 nonce

-- The body and the tag's slot, after the cipher has answered.
abbrev pub put_tag :
    List ℕ → List ℕ → Option (List ℕ × List ℕ) → List ℕ × List ℕ × Result NoiseError (Unit {0})
put_tag body slot none = (body, slot, err destination_too_small)
put_tag body slot (some (text, tag)) =
    if leb tag_bytes (length slot)
    then (text, tag ++ drop tag_bytes slot, ok tt)
    else (text, slot, err destination_too_small)

unfoldable pub seal_in_place :
    Aead → List ℕ → ℕ → List ℕ → List ℕ → List ℕ → List ℕ × List ℕ × Result NoiseError (Unit {0})
seal_in_place a key nonce ad body slot =
    put_tag body slot (a.encrypt_detached key (nonce_bytes nonce) ad body)

abbrev pub decrypted : Option (List ℕ) → Result NoiseError (List ℕ)
decrypted none = err decrypt
decrypted (some plain) = ok plain

-- The plaintext that stands in the body, if the tag verified.
unfoldable pub open_in_place :
    Aead → List ℕ → ℕ → List ℕ → List ℕ → List ℕ → Result NoiseError (List ℕ)
open_in_place a key nonce ad body tag =
    if length tag == tag_bytes
    then decrypted (a.decrypt_detached key (nonce_bytes nonce) ad body tag)
    else err truncated
