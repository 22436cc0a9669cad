-- ===== src/Crypto/Openssl.antt =====
-- CryptoLibrary of include/adq/core: how its operations on values come down to operations on bytes.
-- Those of OpenSSL and of the blind signatures are a parameter.
use adq.Common.{
  ℕ, suc, ◌-◌, List, ◌++◌, Bool, ℤ, length, replicate, if◌then◌else◌, leb, Result, ok, err,
  undefined, ◌>>=◌,
}
use adq.Messages.{SignatureArray, ValueTuple, ValueContribution, SignedValue, MessageBody}
use adq.Crypto.{Crypto}
use adq.Serialization.Bytes.{take}
use adq.Serialization.Values.{
  rsa_signature_size, contribution_to_bytes, contribution_size, signed_to_bytes, signed_size,
}
use adq.Serialization.Bodies.{Library, body_to_bytes, body_size, body_from_bytes}

-- The operations on bytes of one node: signatures with its own key, verification and encryption with
-- the public key of a node (public_keys_by_id.at throws where there is none), decryption with its
-- own key, and the blind signatures of the utility.
pub record Openssl : Type 0 where
  pub sign : List ℕ → SignatureArray
  pub verify : ℤ → List ℕ → SignatureArray → Result Bool
  pub encrypt : ℤ → List ℕ → Result (List ℕ)
  pub decrypt : List ℕ → Result (List ℕ)
  pub make_blind_message : List ℕ → List ℕ
  pub unblind_signature : List ℕ → List ℕ → List ℕ
  pub verify_signature : List ℕ → SignatureArray → Bool
  pub sign_blinded : List ℕ → List ℕ

-- An array of a size into which a body is written: to write beyond it is undefined.
unfoldable pub fill_array : ℕ → List ℕ → Result (List ℕ)
fill_array size content =
    if leb (length content) size
    then ok (content ++ replicate (size - length content) 0)
    else err undefined

module _ {R : Type 0} (lib : Library R) (openssl : Openssl) where
  -- The bytes of a value in an array of its bytes_size.
  unfoldable pub contribution_array : ValueContribution R → List ℕ
  contribution_array v = take (contribution_size lib.tuples v) (contribution_to_bytes lib.tuples v)

  -- A SignedValue with signatures takes more bytes than its bytes_size, past the end of its array.
  unfoldable pub signed_array : SignedValue R → Result (List ℕ)
  signed_array v = fill_array (signed_size lib.tuples v) (signed_to_bytes lib.tuples v)

  unfoldable pub tuple_array : ValueTuple R → List ℕ
  tuple_array value = take (lib.tuples.bytes_size value) (lib.tuples.to_bytes value)

  -- rsa_encrypt of a ValueTuple.
  unfoldable pub rsa_encrypt_tuple : ValueTuple R → ℤ → Result (List ℕ)
  rsa_encrypt_tuple value target_meter_id = openssl.encrypt target_meter_id (tuple_array value)

  unfoldable pub encrypt_bytes : ℤ → MessageBody R → Result (List ℕ)
  encrypt_bytes target_id b = do
    body_bytes ← fill_array (body_size lib b) (body_to_bytes lib b)
    openssl.encrypt target_id body_bytes

  unfoldable pub decrypt_bytes : List ℕ → Result (MessageBody R)
  decrypt_bytes sealed = do
    decrypted_body ← openssl.decrypt sealed
    body_from_bytes lib (suc (length decrypted_body)) decrypted_body

  -- The operations that the other components use.
  unfoldable pub crypto_library : Crypto R
  crypto_library = record {
    sign = λ value. openssl.sign (contribution_array value);
    sign_signed = λ value. signed_array value >>= (λ value_bytes. ok (openssl.sign value_bytes));
    verify =
        λ value signature signer_id. openssl.verify signer_id (contribution_array value) signature;
    verify_signed = λ value signature signer_id.
        signed_array value >>= (λ value_bytes. openssl.verify signer_id value_bytes signature);
    verify_tuple = λ value signature. openssl.verify_signature (tuple_array value) signature;
    seal = encrypt_bytes;
    unseal = decrypt_bytes;
    blind = λ value. openssl.make_blind_message (tuple_array value);
    unblind = λ value blinded.
        take rsa_signature_size (openssl.unblind_signature blinded (tuple_array value));
    sign_blinded = openssl.sign_blinded;
  }
