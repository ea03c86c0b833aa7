-- ===== src/Subscriber/Token.antt =====
-- zitadel_system_token.go of internal/controller/: the tokens of a System API user. The functions
-- of encoding/pem, crypto/x509 and go-jose are parameters. ReuseTokenSource, which keeps a token
-- until it expires, is left out.
use invora_controller.Prelude.{
  ℕ, ◌+◌, ◌*◌, String, ◌<>◌, Option, none, some, List, [], ◌∷◌, ◌==◌, if◌then◌else◌,
}
use invora_controller.Go.{Error, errorf, wrap, Result, ok, err}

-- A PEM block.
pub record Block : Type 0 where
  pub block_type : String
  pub bytes : List ℕ

-- jwt.Claims, as far as they are set.
pub record Claims : Type 0 where
  pub issuer : String
  pub subject : String
  pub audience : List String
  pub issued_at : ℕ
  pub expiry : ℕ

-- K is the type of RSA keys. ParsePKCS8PrivateKey can find a key of another kind, which is none;
-- NewNumericDate is given a time in nanoseconds.
pub record Crypto (K : Type 0) : Type 0 where
  pub pem_decode : List ℕ → Option Block
  pub parse_pkcs1 : List ℕ → Result K
  pub parse_pkcs8 : List ℕ → Result (Option K)
  pub new_signer : K → Option Error
  pub numeric_date : ℕ → ℕ
  pub sign : K → Claims → Result String

pub record SystemTokenSource (K : Type 0) : Type 0 where
  pub signer : K
  pub issuer : String
  pub aud : String
  pub exp_time : ℕ

-- oauth2.Token; the expiry is a time in nanoseconds.
pub record Token : Type 0 where
  pub access_token : String
  pub token_type : String
  pub expiry : ℕ

-- An hour, in nanoseconds.
abbrev pub system_api_token_ttl : ℕ
system_api_token_ttl = 3600 * 1_000_000_000

module _ {K : Type 0} (crypto : Crypto K) where
  unfoldable pub parse_rsa_private_key : List ℕ → Result K
  parse_rsa_private_key pem_data = elim (crypto.pem_decode pem_data) [
    | none ↦ err (errorf "no PEM block found")
    | some block ↦
        if block.block_type == "RSA PRIVATE KEY"
        then crypto.parse_pkcs1 block.bytes
        else if block.block_type == "PRIVATE KEY"
        then elim (crypto.parse_pkcs8 block.bytes) [
          | err e ↦ err e
          | ok none ↦ err (errorf "PKCS8 key is not RSA")
          | ok (some key) ↦ ok key
        ]
        else err (errorf ("unsupported PEM block type: " <> block.block_type))
  ]

  unfoldable pub new_system_token_source : List ℕ → String → String → Result (SystemTokenSource K)
  unfolding parse_rsa_private_key
  new_system_token_source private_key_pem user audience =
      elim (parse_rsa_private_key private_key_pem) [
        | err e ↦ err (wrap "parsing RSA private key" e)
        | ok key ↦ elim (crypto.new_signer key) [
          | some e ↦ err (wrap "creating signer" e)
          | none ↦ ok (record {
            signer = key;
            issuer = user;
            aud = if audience == "" then user else audience;
            exp_time = system_api_token_ttl;
          })
        ]
      ]

  abbrev pub claims_of : SystemTokenSource K → ℕ → Claims
  claims_of s now = record {
    issuer = s.issuer;
    subject = s.issuer;
    audience = s.aud ∷ [];
    issued_at = crypto.numeric_date now;
    expiry = crypto.numeric_date (now + s.exp_time);
  }

  -- Token, at a time.
  unfoldable pub token : SystemTokenSource K → ℕ → Result Token
  token s now = elim (crypto.sign s.signer (claims_of s now)) [
    | err e ↦ err (wrap "signing JWT" e)
    | ok raw ↦ ok (record { access_token = raw; token_type = "Bearer"; expiry = now + s.exp_time })
  ]
