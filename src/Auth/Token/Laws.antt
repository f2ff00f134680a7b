-- ===== src/Auth/Token/Laws.antt =====
-- internal/auth/token.go: what Verify accepts.
use digi_erp_connector.Base.{
  ℕ, ◌*◌, ◌<◌, ◌≡◌, refl, sym, ap, subst, ◌∙◌, Text, Bool, true, false, Option, none, some, List,
  [], ◌∷◌, ltb, text_eq_sound, Outcome, ok, err, ◌>>◌, guard, if◌then◌else◌, if_true, if_false,
  if_err-ok, bind-ok, Bool-cases, inl, inr, ltb→lt,
}
use digi_erp_connector.Base.Int.{ℤ, pos, negsuc}
use digi_erp_connector.Documents.Layout.{Bytes}
use digi_erp_connector.Auth.Token.{
  TokenError, TokenHeader, Claims, TokenOutside, dot, hs256, second, split_on, or_malformed,
  join_dot, still_valid, verify_body, verify_signature, verify_parts, verify, malformed,
  token_expired,
}

then-ok :
    {E B : Type 0} (test : Bool) (e : E) (m : Outcome E B) (b : B)
    → (guard test e >> m) ≡ ok b
    → (test ≡ true) × (m ≡ ok b)
then-ok true e m b h = (refl, h)
then-ok false e m b h = absurd (cc)

or_malformed-ok : {A : Type 0} (o : Option A) (a : A) → or_malformed o ≡ ok a → o ≡ some a
or_malformed-ok none a h = absurd (cc)
or_malformed-ok (some b) a h = cc

-- A token's claims, if it expires after `now`.
pub record IsCurrent (now : ℕ) (c : Claims) : Type 0 where
  pub deadline : ℕ
  pub declared : c.expires ≡ pos deadline
  pub in_time : now < deadline * second

abbrev ok_claims : Claims → Outcome TokenError Claims
ok_claims c = ok c

before :
    (now : ℕ) (c d : Claims) (e : ℕ)
    → (if ltb now (e * second) then ok c else err token_expired) ≡ ok d
    → (now < e * second) × (c ≡ d)
before now c d e h = elim (Bool-cases (ltb now (e * second))) [
  | inl l ↦
      let same : ok_claims c ≡ ok_claims d = sym (if_true _ _ l) ∙ h in
      (ltb→lt now (e * second) l, cc)
  | inr l ↦ let same : err token_expired ≡ ok d = sym (if_false _ _ l) ∙ h in absurd (cc)
]

still_valid-ok :
    (now : ℕ) (c d : Claims) (e : ℤ)
    → c.expires ≡ e
    → still_valid now c e ≡ ok d
    → (c ≡ d) × IsCurrent now c
unfolding still_valid
still_valid-ok now c d (negsuc n) s h = absurd (cc)
still_valid-ok now c d (pos e) s h =
    let (positive, rest) = if_err-ok _ malformed _ h in
    let (intime, same) = before now c d e rest in
    (same, record { deadline = e; declared = s; in_time = intime })

module _ (outside : TokenOutside) (secret : Text) where
  -- A token of three parts, whose header names HS256, whose signature is the secret's own of
  -- the first two, and whose claims are the second part's and still current.
  pub record IsGenuine (now : ℕ) (parts : List Text) (c : Claims) : Type 0 where
    pub head : Text
    pub body : Text
    pub signature : Text
    pub raw_head : Bytes
    pub raw_body : Bytes
    pub header : TokenHeader
    pub three : parts ≡ head ∷ body ∷ signature ∷ []
    pub head_bytes : outside.decode64 head ≡ some raw_head
    pub head_read : outside.unmarshal_header raw_head ≡ some header
    pub algorithm : header.alg ≡ hs256
    pub signature_bytes :
        outside.decode64 signature ≡ some (outside.hmac_sha256 secret (join_dot head body))
    pub body_bytes : outside.decode64 body ≡ some raw_body
    pub body_read : outside.unmarshal_claims raw_body ≡ some c
    pub current : IsCurrent now c

  verify_parts-ok :
      (now : ℕ) (parts : List Text) (c : Claims)
      → verify_parts outside secret now parts ≡ ok c
      → IsGenuine now parts c
  unfolding verify_parts verify_signature verify_body
  verify_parts-ok now [] c h = absurd (cc)
  verify_parts-ok now (p ∷ []) c h = absurd (cc)
  verify_parts-ok now (p ∷ q ∷ []) c h = absurd (cc)
  verify_parts-ok now (head ∷ body ∷ signature ∷ []) c h =
      let (raw_head, a, h1) = bind-ok _ _ c h in
      let (header, b, h2) = bind-ok _ _ c h1 in
      let (alg, h3) = then-ok _ _ _ c h2 in
      let (sig, d, h4) = bind-ok _ _ c h3 in
      let (same, h5) = then-ok _ _ _ c h4 in
      let (raw_body, e, h6) = bind-ok _ _ c h5 in
      let (claims, f, h7) = bind-ok _ _ c h6 in
      let (g, current) = still_valid-ok now claims c claims.expires refl h7 in
      record {
        head = head;
        body = body;
        signature = signature;
        raw_head = raw_head;
        raw_body = raw_body;
        header = header;
        three = refl;
        head_bytes = or_malformed-ok _ raw_head a;
        head_read = or_malformed-ok _ header b;
        algorithm = text_eq_sound header.alg hs256 alg;
        signature_bytes = or_malformed-ok _ sig d ∙ ap some (text_eq_sound sig _ same);
        body_bytes = or_malformed-ok _ raw_body e;
        body_read = or_malformed-ok _ claims f ∙ ap some g;
        current = subst (IsCurrent now) g current;
      }
  verify_parts-ok now (p ∷ q ∷ r ∷ s ∷ ps) c h = absurd (cc)

  -- A token that Verify accepts has exactly three parts, a header that names HS256, a signature
  -- that is the HMAC of its first two parts as presented under the secret of the signer, and
  -- claims, those returned, whose exp is positive and after the present time.
  pub verify-ok :
      (now : ℕ) (token : Text) (c : Claims)
      → verify outside secret now token ≡ ok c
      → IsGenuine now (split_on dot (outside.trim_space token)) c
  unfolding verify
  verify-ok now token c h = verify_parts-ok now _ c h
