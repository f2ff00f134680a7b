-- ===== src/Auth/Token/Signed.antt =====
-- internal/auth/token.go: the tokens that Sign makes are those that Verify takes.
use digi_erp_connector.Base.{
  ℕ, ◌+◌, ◌*◌, ◌/◌, ◌<◌, ◌≡◌, refl, sym, ap, ◌∙◌, arith, Text, Bool, true, false, ◌||◌, Option,
  none, some, [], ◌∷◌, ◌++◌, ◌==◌, text_eq, text_eq_refl, append_assoc, ok, ◌>>=◌, ◌>>◌, guard,
  if_true, if_false, lt→ltb,
}
use digi_erp_connector.Base.Int.{pos}
use digi_erp_connector.Documents.Layout.{Bytes}
use digi_erp_connector.Auth.Token.{
  Claims, TokenOutside, dot, hs256, own_header, second, add_first, split_on, or_malformed,
  sign_with, bad_algorithm, signature_mismatch, join_dot, claims_of, still_valid, signed, sign,
  verify_body, verify_signature, verify_parts, verify,
}
use digi_erp_connector.Auth.Token.Laws.{IsCurrent}

-- Whether a character is in a text.
unfoldable pub has : ℕ → Text → Bool
has d [] = false
has d (c ∷ s) = (c == d) || has d s

or-false : (a b : Bool) → (a || b) ≡ false → (a ≡ false) × (b ≡ false)
or-false true b h = absurd (cc)
or-false false b h = (refl, h)

still_valid-later :
    (now : ℕ) (c : Claims) (e : ℕ) → now < e * second → still_valid now c (pos e) ≡ ok c
unfolding still_valid
still_valid-later now c e h =
    let positive : (e == 0) ≡ false = ground arith in
    if_false _ _ positive ∙ if_true _ _ (lt→ltb now (e * second) h)

-- The texts without a full stop.
abbrev pub NoDot : Text → Type 0
NoDot s = has dot s ≡ false

-- What Verify relies on for a token that Sign made: the packages read back what they wrote, and
-- base64url and the trimming leave what they should.
pub record RoundTrips (outside : TokenOutside) : Type 0 where
  pub decode64-encode64 : (b : Bytes) → outside.decode64 (outside.encode64 b) ≡ some b
  pub encode64-NoDot : (b : Bytes) → NoDot (outside.encode64 b)
  pub read_header :
      (b : Bytes)
      → outside.marshal_header own_header ≡ some b
      → outside.unmarshal_header b ≡ some own_header
  pub read_claims :
      (c : Claims) (b : Bytes)
      → outside.marshal_claims c ≡ some b
      → outside.unmarshal_claims b ≡ some c
  pub trims_own :
      (a b c : Bytes)
      → (let t =
            join_dot (join_dot (outside.encode64 a) (outside.encode64 b)) (outside.encode64 c) in
          outside.trim_space t ≡ t)

split_on-NoDot : (s : Text) → NoDot s → split_on dot s ≡ s ∷ []
unfolding split_on has add_first
split_on-NoDot [] h = refl
split_on-NoDot (c ∷ s) h =
    let (first, rest) = or-false (c == dot) (has dot s) h in
    if_false _ _ first ∙ ap (add_first c) (split_on-NoDot s rest)

split_on-join_dot : (s t : Text) → NoDot s → split_on dot (s ++ (dot ∷ t)) ≡ s ∷ split_on dot t
unfolding split_on has add_first
split_on-join_dot [] t h = refl
split_on-join_dot (c ∷ s) t h =
    let (first, rest) = or-false (c == dot) (has dot s) h in
    if_false _ _ first ∙ ap (add_first c) (split_on-join_dot s t rest)

module _ (outside : TokenOutside) (secret : Text) (now : ℕ) (trips : RoundTrips outside) where
  three_parts :
      (a b c : Bytes)
      → split_on dot (
          outside.trim_space
            (join_dot (join_dot (outside.encode64 a) (outside.encode64 b)) (outside.encode64 c)))
        ≡ outside.encode64 a ∷ outside.encode64 b ∷ outside.encode64 c ∷ []
  unfolding join_dot
  three_parts a b c =
      ap (split_on dot) (trips.trims_own a b c)
      ∙ ap (split_on dot)
          (append_assoc (outside.encode64 a) (dot ∷ outside.encode64 b) (dot ∷ outside.encode64 c))
      ∙ split_on-join_dot (outside.encode64 a) (outside.encode64 b ++ (dot ∷ outside.encode64 c))
          (trips.encode64-NoDot a)
      ∙ ap (λ r. outside.encode64 a ∷ r)
          (split_on-join_dot (outside.encode64 b) (outside.encode64 c) (trips.encode64-NoDot b)
            ∙ ap (λ r. outside.encode64 b ∷ r)
                (split_on-NoDot (outside.encode64 c) (trips.encode64-NoDot c)))

  verify_body-own :
      (c : Claims) (b : Bytes)
      → outside.marshal_claims c ≡ some b
      → IsCurrent now c
      → verify_body outside secret now (outside.encode64 b) ≡ ok c
  unfolding verify_body
  verify_body-own c b m current =
      ap
        (λ o. or_malformed o >>= λ raw.
          or_malformed (outside.unmarshal_claims raw) >>= λ c. still_valid now c c.expires)
        (trips.decode64-encode64 b)
      ∙ ap (λ o. or_malformed o >>= λ c. still_valid now c c.expires) (trips.read_claims c b m)
      ∙ ap (still_valid now c) current.declared
      ∙ still_valid-later now c current.deadline current.in_time

  verify_signature-own :
      (s t : Text)
      → verify_signature outside secret now s t
          (outside.encode64 (outside.hmac_sha256 secret (join_dot s t)))
        ≡ verify_body outside secret now t
  unfolding verify_signature
  verify_signature-own s t =
      let mac = outside.hmac_sha256 secret (join_dot s t) in
      ap
        (λ o. or_malformed o >>= λ sig.
          guard (text_eq sig mac) signature_mismatch >> verify_body outside secret now t)
        (trips.decode64-encode64 mac)
      ∙ ap (λ test. guard test signature_mismatch >> verify_body outside secret now t)
          (text_eq_refl mac)

  verify_parts-own :
      (a : Bytes) (t u : Text)
      → outside.marshal_header own_header ≡ some a
      → verify_parts outside secret now (outside.encode64 a ∷ t ∷ u ∷ [])
        ≡ verify_signature outside secret now (outside.encode64 a) t u
  unfolding verify_parts
  verify_parts-own a t u m =
      let rest = verify_signature outside secret now (outside.encode64 a) t u in
      ap
        (λ o. or_malformed o >>= λ raw. or_malformed (outside.unmarshal_header raw) >>= λ h.
          guard (text_eq h.alg hs256) bad_algorithm >> rest)
        (trips.decode64-encode64 a)
      ∙ ap (λ o. or_malformed o >>= λ h. guard (text_eq h.alg hs256) bad_algorithm >> rest)
          (trips.read_header a m)
      ∙ ap (λ test. guard test bad_algorithm >> rest) (text_eq_refl hs256)

  verify-signed :
      (c : Claims) (a b : Bytes)
      → outside.marshal_header own_header ≡ some a
      → outside.marshal_claims c ≡ some b
      → IsCurrent now c
      → verify outside secret now (signed outside secret a b) ≡ ok c
  unfolding verify signed
  verify-signed c a b h m current =
      let s = outside.encode64 a in
      let t = outside.encode64 b in
      let u = outside.hmac_sha256 secret (join_dot s t) in
      ap (verify_parts outside secret now) (three_parts a b u)
      ∙ verify_parts-own a t (outside.encode64 u) h
      ∙ verify_signature-own s t
      ∙ verify_body-own c b m current

  sign-signed :
      (issued ttl : ℕ) (subject : Text) (oh : Option Bytes) (oc : Option Bytes) (token : Text)
      (deadline : ℕ)
      → outside.marshal_header own_header ≡ oh
      → outside.marshal_claims (claims_of issued subject ttl) ≡ oc
      → sign_with outside secret issued ttl oh oc ≡ ok (token, deadline)
      → IsCurrent now (claims_of issued subject ttl)
      → (deadline ≡ issued + ttl)
        × (verify outside secret now token ≡ ok (claims_of issued subject ttl))
  unfolding sign_with
  sign-signed issued ttl subject none oc token deadline h m e current = absurd (cc)
  sign-signed issued ttl subject (some a) none token deadline h m e current = absurd (cc)
  sign-signed issued ttl subject (some a) (some b) token deadline h m e current =
      let same : signed outside secret a b ≡ token = cc in
      (
        cc,
        ap (verify outside secret now) (sym same)
            ∙ verify-signed (claims_of issued subject ttl) a b h m current,
      )

  -- If the packages read back what they write, base64url gives no full stop and the trimming
  -- leaves such a token, then a token that Sign issued is accepted by Verify at every time before
  -- the second of its expiry, with the subject, iat and exp it was issued for; the deadline that
  -- Sign returns is the time of issue and the ttl.
  pub verify-sign :
      (issued ttl : ℕ) (subject token : Text) (deadline : ℕ)
      → sign outside secret issued subject ttl ≡ ok (token, deadline)
      → now < (issued + ttl) / second * second
      → (deadline ≡ issued + ttl)
        × (verify outside secret now token ≡ ok (claims_of issued subject ttl))
  unfolding sign claims_of
  verify-sign issued ttl subject token deadline h l =
      sign-signed issued ttl subject _ _ token deadline refl refl h
        (record { deadline = (issued + ttl) / second; declared = refl; in_time = l })
