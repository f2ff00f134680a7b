-- ===== src/Auth/Token.antt =====
-- internal/auth/token.go: NewSigner, Sign and Verify.
--
-- A time is its nanoseconds since 1970. HMAC-SHA256, base64url, encoding/json and strings.TrimSpace
-- are the fields of TokenOutside; nothing is assumed of them but what a theorem names.
pub mod Laws
pub mod Signed
use digi_erp_connector.Base.{
  ℕ, ◌+◌, ◌*◌, ◌/◌, Text, Bool, true, Option, none, some, List, [], ◌∷◌, ◌++◌, ◌==◌, ltb, not,
  codes, is_empty, text_eq, Outcome, ok, err, ◌>>=◌, ◌>>◌, guard, if◌then◌else◌,
}
use digi_erp_connector.Base.Int.{ℤ, pos, negsuc}
use digi_erp_connector.Documents.Layout.{Bytes}

pub data TokenError : Type 0 where
  malformed bad_algorithm signature_mismatch token_expired no_secret not_marshalled : TokenError

pub record TokenHeader : Type 0 where
  pub alg : Text
  pub typ : Text

pub record Claims : Type 0 where
  pub subject : Text
  pub issued_at : ℤ
  pub expires : ℤ

-- The packages that the signer calls.
pub record TokenOutside : Type 0 where
  pub hmac_sha256 : Text → Text → Bytes
  pub encode64 : Bytes → Text
  pub decode64 : Text → Option Bytes
  pub marshal_header : TokenHeader → Option Bytes
  pub unmarshal_header : Bytes → Option TokenHeader
  pub marshal_claims : Claims → Option Bytes
  pub unmarshal_claims : Bytes → Option Claims
  pub trim_space : Text → Text

abbrev pub dot : ℕ
dot = b'.'

abbrev pub hs256 : Text
hs256 = codes "HS256"

abbrev pub own_header : TokenHeader
own_header = record { alg = hs256; typ = codes "JWT" }

abbrev pub second : ℕ
second = 1_000_000_000

-- The first part of a text grows by a character.
unfoldable pub add_first : ℕ → List Text → List Text
add_first c [] = (c ∷ []) ∷ []
add_first c (p ∷ ps) = (c ∷ p) ∷ ps

-- strings.Split with a separator of one character.
unfoldable pub split_on : ℕ → Text → List Text
split_on d [] = [] ∷ []
split_on d (c ∷ s) = let rest = split_on d s in if c == d then [] ∷ rest else add_first c rest

abbrev pub or_malformed {ℓ} : {A : Type ℓ} → Option A → Outcome TokenError A
or_malformed none = err malformed
or_malformed (some a) = ok a

unfoldable pub join_dot : Text → Text → Text
join_dot s t = s ++ (dot ∷ t)

-- The secret of a signer, which is not blank.
unfoldable pub new_signer : TokenOutside → Text → Outcome TokenError Text
new_signer outside secret =
    guard (not (is_empty (outside.trim_space secret))) no_secret >> ok secret

-- The claims of a token that is issued at `now`.
unfoldable pub claims_of : ℕ → Text → ℕ → Claims
claims_of now subject ttl = record {
  subject = subject;
  issued_at = pos (now / second);
  expires = pos ((now + ttl) / second);
}

-- The last two checks of Verify, on exp.
unfoldable pub still_valid : ℕ → Claims → ℤ → Outcome TokenError Claims
still_valid now c (negsuc n) = err malformed
still_valid now c (pos e) =
    if e == 0 then err malformed else if ltb now (e * second) then ok c else err token_expired

module _ (outside : TokenOutside) (secret : Text) where
  unfoldable pub signed : Bytes → Bytes → Text
  signed head body =
      let signing_input = join_dot (outside.encode64 head) (outside.encode64 body) in
      join_dot signing_input (outside.encode64 (outside.hmac_sha256 secret signing_input))

  -- Sign after the two calls of json.Marshal.
  unfoldable pub sign_with : ℕ → ℕ → Option Bytes → Option Bytes → Outcome TokenError (Text × ℕ)
  sign_with now ttl none body = err not_marshalled
  sign_with now ttl (some head) none = err not_marshalled
  sign_with now ttl (some head) (some body) = ok (signed head body, now + ttl)

  unfoldable pub sign : ℕ → Text → ℕ → Outcome TokenError (Text × ℕ)
  sign now subject ttl =
      sign_with now ttl (outside.marshal_header own_header)
        (outside.marshal_claims (claims_of now subject ttl))

  -- Verify after the signature.
  unfoldable pub verify_body : ℕ → Text → Outcome TokenError Claims
  verify_body now body = or_malformed (outside.decode64 body) >>= λ raw.
      or_malformed (outside.unmarshal_claims raw) >>= λ c. still_valid now c c.expires

  -- Verify after the header.
  unfoldable pub verify_signature : ℕ → Text → Text → Text → Outcome TokenError Claims
  verify_signature now head body signature = or_malformed (outside.decode64 signature) >>= λ sig.
      guard (text_eq sig (outside.hmac_sha256 secret (join_dot head body))) signature_mismatch
      >> verify_body now body

  unfoldable pub verify_parts : ℕ → List Text → Outcome TokenError Claims
  verify_parts now (head ∷ body ∷ signature ∷ []) = or_malformed (outside.decode64 head) >>= λ raw.
      or_malformed (outside.unmarshal_header raw) >>= λ h.
      guard (text_eq h.alg hs256) bad_algorithm >> verify_signature now head body signature
  verify_parts now _ = err malformed

  unfoldable pub verify : ℕ → Text → Outcome TokenError Claims
  verify now token = verify_parts now (split_on dot (outside.trim_space token))
