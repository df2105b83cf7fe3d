-- ===== src/Signing.antt =====
-- civitas/security/signing.py: the nonce cache, signing, verification, and what a signing serializer
-- lets through. Bytes are lists of numbers; a message dict is of any type `M`.
-- The packing of msgpack, Ed25519 of PyNaCl and the random nonce are parameters.
pub mod Replay
pub mod Trust
use python_civitas.Base.{
  ℕ, zero, suc, Bool, true, false, not, ◌&&◌, ◌||◌, Option, none, some, List, [], ◌∷◌, ◌++◌, String,
  ltb, ◌==◌, Eq, nat_eq, string_eq, length, contains, if◌then◌else◌, ◌≡◌, refl, ◌↔◌, arith,
  nat_beq_iff,
}
use python_civitas.Base.Dict.{Dict, lookup, insert}
use python_civitas.Router.{Text, text_eq}

abbrev pub Bytes : Type 0
Bytes = Text

pub record NonceCache : Type 0 where
  -- oldest first
  pub seen : List Bytes
  pub maxsize : ℕ

abbrev pub drop_first : List Bytes → List Bytes
drop_first [] = []
drop_first (n ∷ ns) = ns

unfoldable pub check_and_add : Bytes → NonceCache → Bool × NonceCache
check_and_add nonce c =
    let added = c.seen ++ nonce ∷ [] in
    if contains nonce c.seen
    then (false, c)
    else if ltb c.maxsize (length added)
    then (true, record c { seen = drop_first added })
    else (true, record c { seen = added })

-- msgpack.packb of the signed part, Ed25519, and str(msg_dict.get("sender", "")).
pub record Crypto (M : Type 0) (S : Type 0) (K : Type 0) : Type 0 where
  pub pack : M → String → Bytes → Bytes
  pub sign_with : S → Bytes → Bytes
  pub verifies : K → Bytes → Bytes → Bool
  pub sender_of : M → String

-- The two switches of the configuration that decide here.
pub record SigningConfig : Type 0 where
  pub require_verification : Bool
  pub allow_unsigned : Bool

pub record MessageSigner (S : Type 0) (K : Type 0) : Type 0 where
  pub identities : Dict String S
  pub registry : Dict String K
  pub config : SigningConfig
  pub nonce_cache : NonceCache

pub record Envelope (M : Type 0) : Type 0 where
  pub msg : M
  pub signer : String
  pub value : Bytes
  pub nonce : Bytes

-- The message dict, or the SignatureError that is raised.
pub data Verdict (M : Type 0) : Type 0 where
  verified : M → Verdict M
  replayed_nonce unknown_signer missing_signature bad_signature unsigned_rejected : Verdict M

-- self._config.require_verification and not self._config.allow_unsigned
abbrev pub is_strict : SigningConfig → Bool
is_strict c = c.require_verification && not c.allow_unsigned

abbrev pub is_blank : Bytes → Bool
is_blank [] = true
is_blank (b ∷ bs) = false

module _ {M S K : Type 0} (crypto : Crypto M S K) where
  unfoldable pub add_identity : String → S → MessageSigner S K → MessageSigner S K
  add_identity name secret s = record s { identities = insert name secret s.identities }

  unfoldable pub trust : String → K → MessageSigner S K → MessageSigner S K
  trust name key s = record s { registry = insert name key s.registry }

  abbrev pub signature_of : Option S → Bytes → Bytes
  signature_of none bytes = []
  signature_of (some secret) bytes = crypto.sign_with secret bytes

  -- `none` is the SignatureError of a sender without a key.
  unfoldable pub sign : M → Bytes → MessageSigner S K → Option (Envelope M)
  sign m nonce s =
      let sender = crypto.sender_of m in
      let value = signature_of (lookup sender s.identities) (crypto.pack m sender nonce) in
      if is_blank value && is_strict s.config
      then none
      else some (record { msg = m; signer = sender; value = value; nonce = nonce })

  -- The checks of `verify` behind the nonce.
  unfoldable pub check_signature : SigningConfig → Option K → Envelope M → Verdict M
  check_signature config none e = if is_strict config then unknown_signer else verified e.msg
  check_signature config (some key) e =
      if is_blank e.value
      then if is_strict config then missing_signature else verified e.msg
      else if crypto.verifies key (crypto.pack e.msg e.signer e.nonce) e.value
      then verified e.msg
      else bad_signature

  abbrev pub verify_fresh :
      Bool × NonceCache → Envelope M → MessageSigner S K → Verdict M × MessageSigner S K
  verify_fresh (false, cache) e s = (replayed_nonce, record s { nonce_cache = cache })
  verify_fresh (true, cache) e s =
      (check_signature s.config (lookup e.signer s.registry) e, record s { nonce_cache = cache })

  unfoldable pub verify : Envelope M → MessageSigner S K → Verdict M × MessageSigner S K
  unfolding check_and_add check_signature
  verify e s = verify_fresh (check_and_add e.nonce s.nonce_cache) e s

-- What unpacked data is to the serializer: a v=2 envelope with a signature block, one without, or a
-- legacy message. `raw.get("msg", raw)` and `raw` are the message dicts of the latter two.
pub data Wire (M : Type 0) : Type 0 where
  enveloped : Envelope M → Wire M
  no_signature_block legacy : M → Wire M

-- SigningSerializer.deserialize between the unpacking and Message.from_dict.
unfoldable pub let_through :
    {M S K : Type 0} → Crypto M S K → Wire M → MessageSigner S K → Verdict M × MessageSigner S K
unfolding verify
let_through crypto (enveloped e) s = verify crypto e s
let_through crypto (no_signature_block m) s =
    (if is_strict s.config then unsigned_rejected else verified m, s)
let_through crypto (legacy m) s = (if is_strict s.config then unsigned_rejected else verified m, s)
