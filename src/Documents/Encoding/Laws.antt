-- ===== src/Documents/Encoding/Laws.antt =====
-- internal/erp/hasavshevet/encode1255.go: what a strict encoding is when there is one.
use digi_erp_connector.Base.{
  ℕ, ◌+◌, ◌≤◌, ◌≡◌, refl, ap, arith, All, Text, false, ◌||◌, Option, none, some, [], ◌∷◌, map, ◌==◌,
  ltb, ltb→le, length, Outcome, ok, err, utf8_len, if_err-ok,
}
use digi_erp_connector.Documents.Layout.{Bytes}
use digi_erp_connector.Documents.Encoding.{
  Unicode, Reason, unencodable, encode_from, encode_step, encode1255_strict, encode_field, within,
  normalize1255, too_long,
}

module _ (u : Unicode) where
  -- Bytes that spell a text: a byte for each character, that character's own.
  abbrev pub Spells : Text → Bytes → Type 0
  Spells s bs = map u.windows1255 s ≡ map some bs

  encode_step-ok :
      (r offset : ℕ) (o : Option ℕ) (rest : Outcome Reason Bytes) (bs : Bytes)
      → encode_step r offset o rest ≡ ok bs
      → (b : ℕ) × (bs' : Bytes) × (o ≡ some b) × (rest ≡ ok bs') × (bs ≡ b ∷ bs')
  unfolding encode_step
  encode_step-ok r offset none rest bs h = absurd (cc)
  encode_step-ok r offset (some b) (err x) bs h = absurd (cc)
  encode_step-ok r offset (some b) (ok bs') bs h = (b, bs', refl, refl, cc)

  printable : (r : ℕ) → (ltb r 0x20 || (r == 0x7F)) ≡ false → 0x20 ≤ r
  printable r h = ground arith

  encode_from_lem :
      (offset : ℕ) (s : Text) (bs : Bytes)
      → encode_from u offset s ≡ ok bs
      → Spells s bs × All (λ c. 0x20 ≤ c) s
  unfolding encode_from
  encode_from_lem offset [] bs h = let same : [] ≡ bs = cc in (ap (map some) same, tt)
  encode_from_lem offset (r ∷ s) bs h =
      let rest = encode_from u (offset + utf8_len r) s in
      let (shown, step) =
        if_err-ok (ltb r 0x20 || (r == 0x7F)) (unencodable r offset)
          (encode_step r offset (u.windows1255 r) rest) h in
      let (b, bs', own, tail, all) = encode_step-ok r offset (u.windows1255 r) rest bs step in
      let (spelled, high) = encode_from_lem (offset + utf8_len r) s bs' tail in
      (rw (all, own, spelled) refl, (printable r shown, high))

  within-ok :
      (field : Text) (most : ℕ) (o : Outcome Reason Bytes) (b : Bytes)
      → within u field most o ≡ ok b
      → (o ≡ ok b) × (length b ≤ most)
  unfolding within
  within-ok field most (err x) b h = absurd (cc)
  within-ok field most (ok c) b h =
      let (short, same) =
        if_err-ok (ltb most (length c))
          (record { field = field; reason = too_long (length c) most }) (ok c) h in
      let c≡b : c ≡ b = cc in (same_ok c≡b, rw (← c≡b) (ltb→le most (length c) short))
    where
      same_ok : {x y : Bytes} → x ≡ y → ◌≡◌ {A = Outcome Reason Bytes} (ok x) (ok y)
      same_ok e = rw e refl

  -- A value that is accepted for a field is neither cut nor changed after its normalisation: the
  -- bytes are its characters' own Windows-1255 bytes, one for each, and no more than the field
  -- holds, and none of its characters is a control character below U+0020.
  pub encode_field-ok :
      (field value : Text) (most : ℕ) (b : Bytes)
      → encode_field u field value most ≡ ok b
      → Spells (normalize1255 u value) b
        × (length b ≤ most)
        × All (λ c. 0x20 ≤ c) (normalize1255 u value)
  unfolding encode_field encode1255_strict
  encode_field-ok field value most b h =
      let (encoded, short) =
        within-ok field most (encode1255_strict u (normalize1255 u value)) b h in
      let (spelled, high) = encode_from_lem 0 (normalize1255 u value) b encoded in
      (spelled, short, high)
