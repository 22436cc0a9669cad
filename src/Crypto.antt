-- ===== src/Crypto.antt =====
-- include/adq/core/CryptoLibrary.hpp and detail/CryptoLibrary_impl.hpp. The cryptography itself is
-- OpenSSL's: it is a parameter.
pub mod Openssl
pub mod Sealing
use adq.Common.{ℕ, ℤ, List, Bool, true, false, Result, ok, err, undefined, ◌>>=◌}
use adq.Messages.{
  SignatureArray, ValueTuple, ValueContribution, SignedValue, MessageBody, Enclosed, null, enclosed,
  OverlayMessage, byte_body,
}

-- The operations of one node's CryptoLibrary on whole values: signing with its own key, verifying
-- with the key of a signer (which throws std::out_of_range if there is none), sealing a body for
-- a node and opening one, and the blind signature of the utility.
pub record Crypto (R : Type 0) : Type 0 where
  pub sign : ValueContribution R → SignatureArray
  pub sign_signed : SignedValue R → Result SignatureArray
  pub verify : ValueContribution R → SignatureArray → ℤ → Result Bool
  pub verify_signed : SignedValue R → SignatureArray → ℤ → Result Bool
  pub verify_tuple : ValueTuple R → SignatureArray → Bool
  pub seal : ℤ → MessageBody R → Result (List ℕ)
  pub unseal : List ℕ → Result (MessageBody R)
  pub blind : ValueTuple R → List ℕ
  pub unblind : ValueTuple R → List ℕ → SignatureArray
  pub sign_blinded : List ℕ → List ℕ

module _ {R : Type 0} (crypto : Crypto R) where
  -- rsa_encrypt of an OverlayMessage.
  unfoldable pub encrypt_body : OverlayMessage R → ℤ → Enclosed R → Result (OverlayMessage R)
  encrypt_body message target_id null = ok (record message { is_encrypted = true })
  encrypt_body message target_id (enclosed b) = do
    sealed ← Crypto.seal crypto target_id b
    ok (record message { is_encrypted = true; enclosed_body = enclosed (byte_body sealed) })

  unfoldable pub rsa_encrypt : OverlayMessage R → ℤ → Result (OverlayMessage R)
  unfolding encrypt_body
  rsa_encrypt message target_id = encrypt_body message target_id message.enclosed_body

  -- rsa_decrypt of an OverlayMessage, whose body is cast to a ByteBody.
  unfoldable pub decrypt_body : OverlayMessage R → Enclosed R → Result (OverlayMessage R)
  decrypt_body message null = ok (record message { is_encrypted = false })
  decrypt_body message (enclosed (byte_body sealed)) = do
    b ← Crypto.unseal crypto sealed
    ok (record message { is_encrypted = false; enclosed_body = enclosed b })
  decrypt_body message (enclosed b) = err undefined

  unfoldable pub rsa_decrypt : OverlayMessage R → Result (OverlayMessage R)
  unfolding decrypt_body
  rsa_decrypt message = decrypt_body message message.enclosed_body
