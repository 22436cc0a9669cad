-- ===== src/Crypto/Sealing.antt =====
-- Encryption and decryption of an OverlayMessage by two nodes' CryptoLibrary.
use adq.Common.{
  ℕ, suc, ◌-◌, List, [], true, false, ℤ, length, replicate_zero, le→leb, ok, >>=-eq-ok, ◌≡◌, refl,
  ap, ◌∙◌, arith,
}
use adq.Messages.{MessageBody, Enclosed, null, enclosed, OverlayMessage, byte_body}
use adq.Crypto.{encrypt_body, decrypt_body, rsa_encrypt, rsa_decrypt}
use adq.Crypto.Openssl.{Openssl, fill_array, encrypt_bytes, decrypt_bytes, crypto_library}
use adq.Serialization.Bodies.{Library, body_to_bytes, body_size}
use adq.Serialization.RoundTrip.{IsUnsigned, IsUnsignedEnclosed, body_from_bytes-body_to_bytes}
use adq.Serialization.Envelopes.Sizes.{length-unsigned}
use mathlib.Core.List.{append-nil}

module _ {R : Type 0} (lib : Library R) (sender : Openssl) (receiver : Openssl)
    (target_id : ℤ) where
  -- The receiver's key opens what the sender's key for the target closes.
  abbrev pub Opens : Type 0
  Opens =
      (bytes sealed : List ℕ)
      → sender.encrypt target_id bytes ≡ ok sealed
      → receiver.decrypt sealed ≡ ok bytes

  pub body_array :
      (b : MessageBody R)
      → IsUnsigned lib b
      → fill_array (body_size lib b) (body_to_bytes lib b) ≡ ok (body_to_bytes lib b)
  unfolding fill_array
  body_array b h =
      let whole = length-unsigned lib b h in
      let fits = le→leb (length (body_to_bytes lib b)) (body_size lib b) (omega (arith, whole)) in
      let full : body_size lib b - length (body_to_bytes lib b) ≡ 0 = omega (arith, whole) in
      rw (fits, full, replicate_zero {A = ℕ} 0, append-nil) refl

  body_opened :
      (b : MessageBody R) (sealed : List ℕ)
      → Opens
      → IsUnsigned lib b
      → encrypt_bytes lib sender target_id b ≡ ok sealed
      → decrypt_bytes lib receiver sealed ≡ ok b
  unfolding encrypt_bytes decrypt_bytes
  body_opened b sealed opens h e =
      let bytes = body_to_bytes lib b in
      let opened = opens bytes sealed (rw (body_array b h) at e) in
      let reads = body_from_bytes-body_to_bytes lib (suc (length bytes)) b h (omega arith) [] in
      rw opened (rw append-nil at reads)

  -- What decryption makes of the sealed bytes of a body.
  sealed_opened :
      (message : OverlayMessage R) (b : MessageBody R) (sealed : List ℕ)
      → decrypt_bytes lib receiver sealed ≡ ok b
      → rsa_decrypt
          (crypto_library lib receiver)
          (record message { is_encrypted = true; enclosed_body = enclosed (byte_body sealed) })
        ≡ ok (record message { is_encrypted = false; enclosed_body = enclosed b })
  unfolding rsa_decrypt decrypt_body crypto_library
  sealed_opened message b sealed opened = rw opened

  enclosed_opened :
      (message sealed_message : OverlayMessage R) (b : Enclosed R)
      → message.enclosed_body ≡ b
      → Opens
      → IsUnsignedEnclosed lib b
      → encrypt_body (crypto_library lib sender) message target_id b ≡ ok sealed_message
      → rsa_decrypt (crypto_library lib receiver) sealed_message
        ≡ ok (record message { is_encrypted = false })
  unfolding encrypt_body rsa_decrypt decrypt_body crypto_library IsUnsigned
  enclosed_opened message sealed_message null same opens h e =
      let sent : record message { is_encrypted = true } ≡ sealed_message = cc e in
      rw (← sent) (rw same refl)
  enclosed_opened message sealed_message (enclosed b) same opens h e =
      let (sealed, closed, returned) =
        >>=-eq-ok (encrypt_bytes lib sender target_id b)
          (λ sealed.
            ok
              (record message { is_encrypted = true; enclosed_body = enclosed (byte_body sealed) }))
          e in
      let sent : record message { is_encrypted = true; enclosed_body = enclosed (byte_body sealed) }
          ≡ sealed_message =
        cc returned in
      let kept : record message { is_encrypted = false; enclosed_body = enclosed b }
          ≡ record message { is_encrypted = false } =
        rw same in
      rw (← sent)
        (sealed_opened message b sealed (body_opened b sealed opens h closed) ∙ ap ok kept)

  -- What a node encrypts for a target, the target decrypts to the message as it was, with
  -- is_encrypted unset: where the sender's rsa_encrypt returns, the target's rsa_decrypt of the result
  -- returns the message. The key of the target opens what is closed for it, and the body has no map
  -- of signatures and fits the wire format.
  pub rsa_decrypt-rsa_encrypt :
      (message sealed_message : OverlayMessage R)
      → Opens
      → IsUnsignedEnclosed lib message.enclosed_body
      → rsa_encrypt (crypto_library lib sender) message target_id ≡ ok sealed_message
      → rsa_decrypt (crypto_library lib receiver) sealed_message
        ≡ ok (record message { is_encrypted = false })
  unfolding rsa_encrypt
  rsa_decrypt-rsa_encrypt message sealed_message opens h e =
      enclosed_opened message sealed_message message.enclosed_body refl opens h e
