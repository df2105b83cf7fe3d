-- ===== src/Signing/Trust.antt =====
-- What verification in civitas/security/signing.py accepts.
use python_civitas.Base.{◌≡◌, refl, true, false, Option, none, some, arith, string_eq}
use python_civitas.Base.Dict.{lookup}
use python_civitas.Signing.{
  Bytes, check_and_add, Crypto, MessageSigner, Envelope, verified, is_strict, is_blank, sign,
  check_signature, verify, Wire, enveloped, no_signature_block, legacy, let_through,
}

module _ {M S K : Type 0} where
  -- An envelope that a signer may accept: fresh, of a known key, and signed with it.
  pub record IsGenuine (crypto : Crypto M S K) (s : MessageSigner S K) (e : Envelope M)
      : Type 0 where
    pub fresh : (check_and_add e.nonce s.nonce_cache).0 ≡ true
    pub key : K
    pub known : lookup e.signer s.registry ≡ some key
    pub signed : is_blank e.value ≡ false
    pub valid : crypto.verifies key (crypto.pack e.msg e.signer e.nonce) e.value ≡ true

  strict_check :
      (crypto : Crypto M S K) (s : MessageSigner S K) (e : Envelope M) (key : Option K) (m : M)
      → is_strict s.config ≡ true
      → check_signature crypto s.config key e ≡ verified m
      → (k : K) × (key ≡ some k)
        × (is_blank e.value ≡ false)
        × (crypto.verifies k (crypto.pack e.msg e.signer e.nonce) e.value ≡ true)
        × (m ≡ e.msg)
  unfolding check_signature
  strict_check crypto s e none m strict h = ground arith
  strict_check crypto s e (some k) m strict h = (k, refl, ground arith, ground arith, ground arith)

  verify_split :
      (crypto : Crypto M S K) (s : MessageSigner S K) (e : Envelope M) (m : M)
      → (verify crypto e s).0 ≡ verified m
      → ((check_and_add e.nonce s.nonce_cache).0 ≡ true)
        × (check_signature crypto s.config (lookup e.signer s.registry) e ≡ verified m)
  unfolding verify
  verify_split crypto s e m h = ground arith

  -- Where verification is required and unsigned messages are not allowed, the serializer lets a message
  -- through only from an envelope whose nonce is fresh, whose signer has a registered key, and whose
  -- signature that key verifies over the very message that is let through.
  pub strict_is_sound :
      (crypto : Crypto M S K) (s : MessageSigner S K) (w : Wire M) (m : M)
      → is_strict s.config ≡ true
      → (let_through crypto w s).0 ≡ verified m
      → (e : Envelope M) × (w ≡ enveloped e) × (m ≡ e.msg) × IsGenuine crypto s e
  unfolding let_through
  strict_is_sound crypto s (enveloped e) m strict h =
      let parts = verify_split crypto s e m h in
      let checked = strict_check crypto s e (lookup e.signer s.registry) m strict parts.1 in
      (
        e,
        refl,
        checked.4,
        record {
          fresh = parts.0;
          key = checked.0;
          known = checked.1;
          signed = checked.2;
          valid = checked.3;
        },
      )
  strict_is_sound crypto s (no_signature_block n) m strict h = ground arith
  strict_is_sound crypto s (legacy n) m strict h = ground arith

  -- A message that is signed by an agent with an identity is accepted by every verifier that trusts the
  -- matching key and has not seen the nonce, whatever the two configurations.
  pub sign_then_verify :
      (crypto : Crypto M S K) (sender verifier : MessageSigner S K) (m : M) (nonce : Bytes)
      (secret : S) (key : K)
      → lookup (crypto.sender_of m) sender.identities ≡ some secret
      → lookup (crypto.sender_of m) verifier.registry ≡ some key
      → is_blank (crypto.sign_with secret (crypto.pack m (crypto.sender_of m) nonce)) ≡ false
      → crypto.verifies key
          (crypto.pack m (crypto.sender_of m) nonce)
          (crypto.sign_with secret (crypto.pack m (crypto.sender_of m) nonce))
        ≡ true
      → (check_and_add nonce verifier.nonce_cache).0 ≡ true
      → (e : Envelope M) × (sign crypto m nonce sender ≡ some e)
        × ((verify crypto e verifier).0 ≡ verified m)
  unfolding sign verify check_signature
  sign_then_verify crypto sender verifier m nonce secret key has_identity trusted signed valid
        fresh =
      (
        record {
          msg = m;
          signer = crypto.sender_of m;
          value = crypto.sign_with secret (crypto.pack m (crypto.sender_of m) nonce);
          nonce = nonce;
        },
        ground arith,
        ground arith,
      )
