-- ===== src/Auth/Tests.antt =====
-- The tokens with simple stand-ins for the packages that the signer calls.
use digi_erp_connector.Base.{
  ◌+◌, ◌-◌, ◌≡◌, refl, sym, ap, ◌∙◌, arith, Text, codes, Option, none, some, [], ◌∷◌, ◌++◌, map, ok,
}
use digi_erp_connector.Base.Int.{ℤ, pos, negsuc}
use digi_erp_connector.Documents.Layout.{Bytes}
use digi_erp_connector.Auth.Token.{
  Claims, TokenOutside, dot, own_header, split_on, claims_of, signed, sign, sign_with, verify,
}
use digi_erp_connector.Auth.Token.Laws.{IsGenuine, verify-ok}
use digi_erp_connector.Auth.Token.Signed.{RoundTrips, NoDot, has, verify-sign}

-- Each byte as a character beyond the full stop.
abbrev shift_up : Bytes → Text
shift_up b = map (λ n. n + 47) b

abbrev shift_down : Text → Bytes
shift_down s = map (λ n. n - 47) s

-- The numbers, then the subject; no claims with a negative number.
abbrev put_numbers : Text → ℤ → ℤ → Option Bytes
put_numbers s (pos i) (pos e) = some (i ∷ e ∷ s)
put_numbers s (pos i) (negsuc e) = none
put_numbers s (negsuc i) e = none

abbrev put_claims : Claims → Option Bytes
put_claims c = put_numbers c.subject c.issued_at c.expires

abbrev get_claims : Bytes → Option Claims
get_claims (i ∷ e ∷ s) = some (record { subject = s; issued_at = pos i; expires = pos e })
get_claims _ = none

abbrev packages : TokenOutside
packages = record {
  hmac_sha256 = λ secret s. secret ++ s;
  encode64 = shift_up;
  decode64 = λ s. some (shift_down s);
  marshal_header = λ h. some (h.alg);
  unmarshal_header = λ b. some (record { alg = b; typ = codes "JWT" });
  marshal_claims = put_claims;
  unmarshal_claims = get_claims;
  trim_space = λ s. s;
}

shift_down-shift_up : (b : Bytes) → shift_down (shift_up b) ≡ b
shift_down-shift_up [] = refl
shift_down-shift_up (n ∷ b) =
    let e : n + 47 - 47 ≡ n = omega arith in
    ap (λ m. m ∷ shift_down (shift_up b)) e ∙ ap (λ r. n ∷ r) (shift_down-shift_up b)

shift_up-NoDot : (b : Bytes) → NoDot (shift_up b)
unfolding has
shift_up-NoDot [] = refl
shift_up-NoDot (n ∷ b) = let deeper = shift_up-NoDot b in ground arith

get_claims-put_numbers :
    (s : Text) (i e : ℤ) (b : Bytes)
    → put_numbers s i e ≡ some b
    → get_claims b ≡ some (record { subject = s; issued_at = i; expires = e })
get_claims-put_numbers s (pos i) (pos e) b h =
    let same : i ∷ e ∷ s ≡ b = cc in ap get_claims (sym same)
get_claims-put_numbers s (pos i) (negsuc e) b h = absurd (cc)
get_claims-put_numbers s (negsuc i) e b h = absurd (cc)

get_claims-put_claims : (c : Claims) (b : Bytes) → put_claims c ≡ some b → get_claims b ≡ some c
get_claims-put_claims c b h = get_claims-put_numbers c.subject c.issued_at c.expires b h

packages-RoundTrips : RoundTrips packages
packages-RoundTrips = record {
  decode64-encode64 = λ b. ap some (shift_down-shift_up b);
  encode64-NoDot = shift_up-NoDot;
  read_header = λ b h.
      let e : own_header.alg ≡ b = cc in ap (λ a. some (record own_header { alg = a })) (sym e);
  read_claims = get_claims-put_claims;
  trims_own = λ a b c. refl;
}

abbrev own_secret : Text
own_secret = codes "s3"

-- Issued 5 s after 1970 for a minute, and presented 4 s later.
abbrev token : Text
token = signed packages own_secret own_header.alg (5 ∷ 65 ∷ codes "shop")

signs :
    sign packages own_secret 5_000_000_000 (codes "shop") 60_000_000_000
    ≡ ok (token, 65_000_000_000)
unfolding sign sign_with claims_of
signs = refl

verify-sign_example :
    (65_000_000_000 ≡ 5_000_000_000 + 60_000_000_000)
    × (verify packages own_secret 9_000_000_000 token
        ≡ ok (claims_of 5_000_000_000 (codes "shop") 60_000_000_000))
verify-sign_example =
    verify-sign packages own_secret 9_000_000_000 packages-RoundTrips 5_000_000_000 60_000_000_000
      (codes "shop") token 65_000_000_000 signs (omega arith)

verifies :
    verify packages own_secret 9_000_000_000 token
    ≡ ok (claims_of 5_000_000_000 (codes "shop") 60_000_000_000)
verifies =
    (verify-sign packages own_secret 9_000_000_000 packages-RoundTrips 5_000_000_000 60_000_000_000
      (codes "shop") token 65_000_000_000 signs (omega arith)).1

verify-ok_example :
    IsGenuine packages own_secret 9_000_000_000
      (split_on dot token)
      (claims_of 5_000_000_000 (codes "shop") 60_000_000_000)
verify-ok_example =
    verify-ok packages own_secret 9_000_000_000 token
      (claims_of 5_000_000_000 (codes "shop") 60_000_000_000) verifies
