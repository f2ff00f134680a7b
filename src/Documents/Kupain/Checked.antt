-- ===== src/Documents/Kupain/Checked.antt =====
-- internal/erp/hasavshevet/kupain.go: what buildKUPAINRecord insists on in a request.
use digi_erp_connector.Base.{
  ℕ, ◌≤◌, ◌≡◌, refl, ap, arith, List, ltb, ◌||◌, Text, codes, length, Bool, true, false, Outcome,
  ok, err, ◌>>=◌, Holds, Holds-ok, if_err-ok,
}
use digi_erp_connector.Base.Int.{ℤ, pos, negsuc}
use digi_erp_connector.Documents.Layout.{Bytes}
use digi_erp_connector.Documents.Encoding.{Unicode, Reason, must_be_one, not_digits}
use digi_erp_connector.Documents.Kupain.Tables.{max_amount_minor}
use digi_erp_connector.Documents.Kupain.CardNames.{ReceiptCardNames, Warning}
use digi_erp_connector.Documents.Kupain.{
  put, ReceiptRequest, WriteError, Values, check, document_values, payment_values, account_values,
  contact_values, kupain_values, is_one, is_four_ascii_digits, format_amount, written,
  build_kupain_record,
}

-- An amount from 1 to the highest one, a single installment, and four characters of the card.
pub record IsTakeable (req : ReceiptRequest) : Type 0 where
  pub minor : ℕ
  pub amount : req.amount_minor ≡ pos minor
  pub positive : 1 ≤ minor
  pub bounded : minor ≤ max_amount_minor
  pub installments : req.installments ≡ pos 1
  pub last4 : length req.last4 ≡ 4

written-ok :
    (o : Outcome WriteError (Values × List Warning)) (doc : Bytes × List Warning)
    → written o ≡ ok doc
    → (p : Values × List Warning) × (o ≡ ok p)
unfolding written
written-ok (ok p) doc h = (p, refl)
written-ok (err e) doc h = absurd (cc)

check-ok :
    (good : Bool) (field : Text) (reason : Reason) {u : Unit {0}}
    → check good field reason ≡ ok u
    → good ≡ true
unfolding check
check-ok true field reason h = refl
check-ok false field reason h = absurd (cc)

format_amount-ok :
    (amount : ℤ) (t : Text)
    → format_amount amount ≡ ok t
    → (minor : ℕ) × (amount ≡ pos minor) × (1 ≤ minor) × (minor ≤ max_amount_minor)
unfolding format_amount
format_amount-ok (negsuc n) t h = absurd (cc)
format_amount-ok (pos n) t h =
    let (within, rest) = if_err-ok (ltb n 1 || ltb max_amount_minor n) _ _ h in
    (n, refl, ground arith, ground arith)

is_one-true : (n : ℤ) → is_one n ≡ true → n ≡ pos 1
unfolding is_one
is_one-true (pos n) h = let e : n ≡ 1 = ground arith in ap pos e
is_one-true (negsuc n) h = absurd (cc)

four-length : (s : Text) → is_four_ascii_digits s ≡ true → length s ≡ 4
unfolding is_four_ascii_digits
four-length s h = ground arith

-- What the first of two steps shows when it succeeds.
via :
    {A B : Type 0} (Q : B → Type 0) (m : Outcome WriteError A) (k : A → Outcome WriteError B)
    → ((a : A) → m ≡ ok a → Holds Q (k a))
    → Holds Q (m >>= k)
via Q (ok a) k f = f a refl
via Q (err e) k f = tt

always : {A : Type 0} {X : Type 0} (o : Outcome WriteError A) → X → Holds (λ (_ : A). X) o
always (ok a) x = x
always (err e) x = tt

IsAmount : ℤ → Type 0
IsAmount amount = (minor : ℕ) × (amount ≡ pos minor) × (1 ≤ minor) × (minor ≤ max_amount_minor)

module _ (u : Unicode) where
  payment-holds :
      (req : ReceiptRequest) (names : ReceiptCardNames) (vals : Values)
      → Holds
          (λ (_ : Values × List Warning). IsAmount req.amount_minor × (req.installments ≡ pos 1))
          (payment_values u req names vals)
  unfolding payment_values IsAmount
  payment-holds req names vals =
      let Q : Values × List Warning → Type 0 =
        λ _. IsAmount req.amount_minor × (req.installments ≡ pos 1) in
      via Q (format_amount req.amount_minor) _ λ amount a.
        via Q (put u 12 (codes "amountMinor") amount vals) _ λ v12 _.
          via Q (check (is_one req.installments) (codes "installments") must_be_one) _ λ _ one.
            always {A = Values × List Warning}
              {X = IsAmount req.amount_minor × (req.installments ≡ pos 1)} _
              (
                format_amount-ok req.amount_minor amount a,
                is_one-true req.installments (check-ok _ _ _ one),
              )

  contact-holds :
      (req : ReceiptRequest) (vals : Values)
      → Holds (λ (_ : Values). length req.last4 ≡ 4) (contact_values u req vals)
  unfolding contact_values
  contact-holds req vals =
      via (λ _. length req.last4 ≡ 4)
        (check (is_four_ascii_digits req.last4) (codes "last4") not_digits) _
        λ _ four. always _ (four-length req.last4 (check-ok _ _ _ four))

  values-holds :
      (req : ReceiptRequest) (n : ℤ) (names : ReceiptCardNames)
      → Holds (λ (_ : Values × List Warning). IsTakeable req) (kupain_values u req n names)
  unfolding kupain_values IsAmount
  values-holds req n names =
      let Q : Values × List Warning → Type 0 = λ _. IsTakeable req in
      via Q (document_values u req n) _ λ v7 _. via Q (payment_values u req names v7) _ λ p paid.
        via Q (account_values u req p.0) _ λ v27 _. via Q (contact_values u req v27) _ λ v43 had.
          let ((minor, amount, low, high), one) =
            Holds-ok {a = p} (λ _. IsAmount req.amount_minor × (req.installments ≡ pos 1))
              (payment_values u req names v7) paid (payment-holds req names v7) in
          record {
            minor = minor;
            amount = amount;
            positive = low;
            bounded = high;
            installments = one;
            last4 =
                Holds-ok {a = v43} (λ _. length req.last4 ≡ 4) (contact_values u req v27) had
                  (contact-holds req v27);
          }

  -- A request whose record is built is takeable.
  pub build-IsTakeable :
      (req : ReceiptRequest) (n : ℤ) (names : ReceiptCardNames) (doc : Bytes × List Warning)
      → build_kupain_record u req n names ≡ ok doc
      → IsTakeable req
  unfolding build_kupain_record
  build-IsTakeable req n names doc h =
      let (p, e) = written-ok (kupain_values u req n names) doc h in
      Holds-ok {a = p} (λ _. IsTakeable req) (kupain_values u req n names) e
        (values-holds req n names)
