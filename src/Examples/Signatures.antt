-- ===== src/Examples/Signatures.antt =====
-- Signed messages of civitas/security/signing.py with concrete keys.
use python_civitas.Base.{ℕ, ◌≡◌, refl, true, false, some, [], ◌∷◌, String, ◌==◌, arith, string_eq}
use python_civitas.Base.Dict.{lookup}
use python_civitas.Router.{text_eq}
use python_civitas.Signing.{
  NonceCache, check_and_add, Crypto, MessageSigner, Envelope, verified, enveloped, sign, verify,
  let_through, check_signature,
}
use python_civitas.Signing.Replay.{check_all, replay_refused}
use python_civitas.Signing.Trust.{IsGenuine, strict_is_sound, sign_then_verify}

-- A message is its sender; a signature is the key followed by what is signed.
abbrev toy : Crypto String ℕ ℕ
toy = record {
  pack = λ m signer nonce. nonce;
  sign_with = λ secret bytes. secret ∷ bytes;
  verifies = λ key bytes value. value == (key ∷ bytes);
  sender_of = λ m. m;
}

abbrev cache : NonceCache
cache = record { seen = (1 ∷ []) ∷ (2 ∷ []) ∷ []; maxsize = 2 }

abbrev signer : MessageSigner ℕ ℕ
signer = record {
  identities = ("ana", 7) ∷ [];
  registry = ("ana", 7) ∷ [];
  config = record { require_verification = true; allow_unsigned = false };
  nonce_cache = cache;
}

fresh : (check_and_add (3 ∷ []) cache).0 ≡ true
unfolding check_and_add
fresh = refl

replay_refused_example :
    (check_and_add (3 ∷ []) (check_all ((4 ∷ []) ∷ []) (check_and_add (3 ∷ []) cache).1)).0 ≡ false
replay_refused_example = replay_refused (3 ∷ []) ((4 ∷ []) ∷ []) cache fresh (omega arith)

abbrev envelope : String → Envelope String
envelope m = record { msg = m; signer = "ana"; value = 7 ∷ 3 ∷ []; nonce = 3 ∷ [] }

accepted : (let_through toy (enveloped (envelope "ana")) signer).0 ≡ verified "ana"
unfolding let_through verify check_and_add check_signature lookup
accepted = refl

strict_is_sound_example :
    (e : Envelope String) × (enveloped (envelope "ana") ≡ enveloped e)
    × ("ana" ≡ e.msg)
    × IsGenuine toy signer e
strict_is_sound_example =
    strict_is_sound toy signer (enveloped (envelope "ana")) "ana" refl accepted

ana_known : lookup "ana" signer.registry ≡ some 7
unfolding lookup
ana_known = refl

sign_then_verify_example :
    (e : Envelope String) × (sign toy "ana" (3 ∷ []) signer ≡ some e)
    × ((verify toy e signer).0 ≡ verified "ana")
sign_then_verify_example =
    sign_then_verify toy signer signer "ana" (3 ∷ []) 7 7 ana_known ana_known refl refl fresh
