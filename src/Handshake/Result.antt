-- ===== src/Handshake/Result.antt =====
-- pkg/handshake/handshake.go: what a handshake that succeeds has established.
use logflux_go_sdk.Prelude.{
  ◌≡◌, refl, ap, subst, true, false, Bool-cases, inl, inr, [], ◌++◌, Option, none, some, Str, codes,
  str_eq, Except, ok, err, >>=-eq-ok, ok_injective,
}
use logflux_go_sdk.Handshake.{
  HandshakeInitResponse, HandshakeCompleteResponse, HandshakeResult, HandshakeError, init_request,
  complete_request, no_aes_key, bad_public_key, no_fingerprint, not_encrypted, no_key_id,
  no_public_key, Request, Reply, Decoders, Rsa, or_fail, body_of, trim_space, get_key_id,
  validate_pem, checked_init, init_among, top_init, first_key_id, id_among, top_complete,
  decode_init, decode_complete, perform_handshake_with_url, snippet,
}

-- What holds of a result, if it is no error.
abbrev pub Yields : {A : Type 0} → (A → Type 0) → Except HandshakeError A → Type 0
Yields P (ok a) = P a
Yields P (err e) = Unit

of_ok :
    {A : Type 0} (P : A → Type 0) (r : Except HandshakeError A) (a : A)
    → Yields P r
    → r ≡ ok a
    → P a
of_ok P (ok b) a h e = subst P (ok_injective e) h
of_ok P (err b) a h e = cc

abbrev Filled : Str → Type 0
Filled id = str_eq id [] ≡ false

first_key_id-Filled :
    (r : HandshakeCompleteResponse) (otherwise : Except HandshakeError Str)
    → Yields Filled otherwise
    → Yields Filled (first_key_id r otherwise)
unfolding first_key_id
first_key_id-Filled r otherwise h = elim (Bool-cases (str_eq (get_key_id r) [])) [
  | inl blank ↦ simp blank h
  | inr filled ↦ simp filled refl
]

id_among-Filled :
    (o : Option (Option HandshakeCompleteResponse)) (otherwise : Except HandshakeError Str)
    → Yields Filled otherwise
    → Yields Filled (id_among o otherwise)
id_among-Filled none otherwise h = h
id_among-Filled (some none) otherwise h = h
id_among-Filled (some (some r)) otherwise h = first_key_id-Filled r otherwise h

abbrev HasPem : HandshakeInitResponse → Type 0
HasPem r = validate_pem r.public_key ≡ true

checked_init-HasPem :
    (r : HandshakeInitResponse) (otherwise : Except HandshakeError HandshakeInitResponse)
    → Yields HasPem otherwise
    → Yields HasPem (checked_init r otherwise)
unfolding checked_init
checked_init-HasPem r otherwise h = elim (Bool-cases (str_eq (trim_space r.public_key) [])) [
  | inl blank ↦ simp blank h
  | inr filled ↦ elim (Bool-cases (validate_pem r.public_key)) [
    | inl pem ↦ simp (filled, pem) refl
    | inr other ↦ simp (filled, other) tt
  ]
]

init_among-HasPem :
    (o : Option (Option HandshakeInitResponse))
    (otherwise : Except HandshakeError HandshakeInitResponse)
    → Yields HasPem otherwise
    → Yields HasPem (init_among o otherwise)
init_among-HasPem none otherwise h = h
init_among-HasPem (some none) otherwise h = h
init_among-HasPem (some (some r)) otherwise h = checked_init-HasPem r otherwise h

or_fail-some :
    {A : Type 0} (o : Option A) (e : HandshakeError) (a : A) → or_fail o e ≡ ok a → o ≡ some a
or_fail-some none e a h = cc
or_fail-some (some b) e a h = ap some (ok_injective h)

module _ (json : Decoders) (rsa : Rsa) where
  -- What the steps of a handshake found on the way to its result.
  pub record Stages (http : Request → Reply) (fresh_key : Option Str) (url api_key : Str)
      (r : HandshakeResult) : Type 0 where
    pub init_body : Str
    pub first : body_of (url ++ codes "/init") (http (init_request url api_key)) ≡ ok init_body
    pub init : HandshakeInitResponse
    pub decoded : decode_init json init_body ≡ ok init
    pub same_pem : init.public_key ≡ r.server_public_key_pem
    pub drawn : fresh_key ≡ some r.aes_key
    pub public_key : rsa.PublicKey
    pub parsed : rsa.parse r.server_public_key_pem ≡ some public_key
    pub printed : rsa.fingerprint public_key ≡ some r.server_key_fingerprint
    pub secret : Str
    pub encrypted : rsa.encrypt public_key r.aes_key ≡ some secret
    pub body : Str
    pub second :
        body_of (url ++ codes "/complete") (http (complete_request url api_key secret)) ≡ ok body
    pub named : decode_complete json body ≡ ok r.key_uuid

  pub handshake-Stages :
      (http : Request → Reply) (fresh_key : Option Str) (url api_key : Str) (r : HandshakeResult)
      → perform_handshake_with_url json rsa http fresh_key url api_key ≡ ok r
      → Stages http fresh_key url api_key r
  unfolding perform_handshake_with_url decode_init decode_complete
  handshake-Stages http fresh_key url api_key r h =
      let (init_body, first, h1) =
        >>=-eq-ok (body_of (url ++ codes "/init") (http (init_request url api_key))) _ h in
      let (init, decoded, h2) = >>=-eq-ok (decode_init json init_body) _ h1 in
      let (key, drawn, h3) = >>=-eq-ok (or_fail fresh_key no_aes_key) _ h2 in
      let (public_key, parsed, h4) =
        >>=-eq-ok (or_fail (rsa.parse init.public_key) bad_public_key) _ h3 in
      let (fingerprint, printed, h5) =
        >>=-eq-ok (or_fail (rsa.fingerprint public_key) no_fingerprint) _ h4 in
      let (secret, encrypted, h6) =
        >>=-eq-ok (or_fail (rsa.encrypt public_key key) not_encrypted) _ h5 in
      let (body, second, h7) =
        >>=-eq-ok (body_of (url ++ codes "/complete") (http (complete_request url api_key secret)))
          _ h6 in
      let (id, named, h8) = >>=-eq-ok (decode_complete json body) _ h7 in
      subst (Stages http fresh_key url api_key) (ok_injective h8) (record {
        init_body = init_body;
        first = first;
        init = init;
        decoded = decoded;
        same_pem = refl;
        drawn = or_fail-some fresh_key no_aes_key key drawn;
        public_key = public_key;
        parsed = or_fail-some (rsa.parse init.public_key) bad_public_key public_key parsed;
        printed = or_fail-some (rsa.fingerprint public_key) no_fingerprint fingerprint printed;
        secret = secret;
        encrypted = or_fail-some (rsa.encrypt public_key key) not_encrypted secret encrypted;
        body = body;
        second = second;
        named = named;
      })

  -- The key is the one drawn, its id is not empty, and the server's key is a PEM text of an RSA key.
  pub record IsSession (fresh_key : Option Str) (r : HandshakeResult) : Type 0 where
    pub drawn : fresh_key ≡ some r.aes_key
    pub has_id : str_eq r.key_uuid [] ≡ false
    pub has_pem : validate_pem r.server_public_key_pem ≡ true
    pub parsed : (key : rsa.PublicKey) × (rsa.parse r.server_public_key_pem ≡ some key)

  -- Whatever the server answers, a handshake that succeeds ends with the key that was drawn, an id that
  -- is not empty, and a public key of the server that has the PEM markers and that RSA accepts.
  pub perform_handshake-IsSession :
      (http : Request → Reply) (fresh_key : Option Str) (url api_key : Str) (r : HandshakeResult)
      → perform_handshake_with_url json rsa http fresh_key url api_key ≡ ok r
      → IsSession fresh_key r
  unfolding decode_init decode_complete
  perform_handshake-IsSession http fresh_key url api_key r h =
      let s = handshake-Stages http fresh_key url api_key r h in
      record {
        drawn = s.drawn;
        has_id =
            of_ok Filled (decode_complete json s.body) r.key_uuid
              (id_among-Filled (top_complete (json.complete s.body)) _ (
                id_among-Filled (json.wrapped_complete s.body) (err (no_key_id (snippet s.body)))
                  tt))
              s.named;
        has_pem =
            subst (λ pem. validate_pem pem ≡ true) s.same_pem
              (of_ok HasPem (decode_init json s.init_body) s.init
                (init_among-HasPem (top_init (json.init s.init_body)) _ (
                  init_among-HasPem (json.wrapped_init s.init_body)
                    (err (no_public_key (snippet s.init_body))) tt))
                s.decoded);
        parsed = (s.public_key, s.parsed);
      }
