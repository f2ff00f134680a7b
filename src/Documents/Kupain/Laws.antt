-- ===== src/Documents/Kupain/Laws.antt =====
-- internal/erp/hasavshevet/kupain.go: the checks of buildKUPAINRecord, one after the other, and what
-- they keep of the values.
use digi_erp_connector.Base.{
  ℕ, ◌≡◌, refl, All, Text, codes, List, [], ◌∷◌, Outcome, ok, err, Holds, Holds-bind, ◌>>=◌,
}
use digi_erp_connector.Base.Int.{ℤ}
use digi_erp_connector.Documents.Layout.{Bytes}
use digi_erp_connector.Documents.Encoding.{
  Unicode, must_be_one, not_digits, FieldError, encode_field, trim_edges,
}
use digi_erp_connector.Documents.Kupain.Tables.{kupain_width}
use digi_erp_connector.Documents.Kupain.CardNames.{ReceiptCardNames, Warning, card_name}
use digi_erp_connector.Documents.Kupain.{
  ReceiptRequest, WriteError, Values, value_of, put, put_card_name, required, stored, stored_name,
  check_number, day_or_refuse, format_amount, document_values, payment_values, account_values,
  contact_values, kupain_values, is_one, is_card_code, is_four_ascii_digits, check,
}

-- A property of the numbered values that an encoded field has, and that F6 takes over from F5,
-- holds of all the values of a record.
module _ (u : Unicode) (P : ℕ × Bytes → Type 0)
    (own : (num : ℕ) (wire value : Text) (b : Bytes)
      → encode_field u wire value (kupain_width num) ≡ ok b
      → P (num, b))
    (copied : (vals : Values) → All P vals → P (6, value_of 5 vals)) where
  stored-All :
      (num : ℕ) (vals : Values) (o : Outcome FieldError Bytes)
      → ((b : Bytes) → o ≡ ok b → P (num, b))
      → All P vals
      → Holds (All P) (stored num vals o)
  unfolding stored
  stored-All num vals (ok b) f h = (f b refl, h)
  stored-All num vals (err e) f h = tt

  put-All :
      (num : ℕ) (wire value : Text) (vals : Values)
      → All P vals
      → Holds (All P) (put u num wire value vals)
  unfolding put
  put-All num wire value vals h =
      stored-All num vals (encode_field u wire (trim_edges u value) (kupain_width num))
        (own num wire (trim_edges u value)) h

  -- A check sets nothing.
  after :
      {A B : Type 0} (Q : B → Type 0) (m : Outcome WriteError A) (k : A → Outcome WriteError B)
      → ((a : A) → Holds Q (k a))
      → Holds Q (m >>= k)
  after Q (ok a) k f = f a
  after Q (err e) k f = tt

  contact-All :
      (req : ReceiptRequest) (vals : Values)
      → All P vals
      → Holds (All P) (contact_values u req vals)
  unfolding contact_values
  contact-All req vals h =
      after (All P) (check (is_four_ascii_digits req.last4) (codes "last4") not_digits) _ λ _.
        Holds-bind (All P) (All P) _ _ (put-All 28 (codes "last4") req.last4 vals h) λ v28 h28.
          Holds-bind (All P) (All P) _ _ (put-All 42 (codes "email") req.email v28 h28)
            λ v42 h42. put-All 43 (codes "confirmationCode") req.confirmation_code v42 h42

  account-All :
      (req : ReceiptRequest) (vals : Values)
      → All P vals
      → Holds (All P) (account_values u req vals)
  unfolding account_values
  account-All req vals h =
      Holds-bind (All P) (All P) _ _ (put-All 20 (codes "agentKey") req.agent_key vals h) λ v20 h20.
        after (All P) (required u (codes "confirmationCode") req.confirmation_code) _ λ _.
          Holds-bind (All P) (All P) _ _
            (put-All 22 (codes "confirmationCode") req.confirmation_code v20 h20)
            λ v22 h22.
              Holds-bind (All P) (All P) _ _
                (put-All 23 (codes "providerUid") req.provider_uid v22 h22)
                λ v23 h23. after (All P) (required u (codes "name") req.name) _ λ _.
                  Holds-bind (All P) (All P) _ _ (put-All 24 (codes "name") req.name v23 h23)
                    λ v24 h24.
                      Holds-bind (All P) (All P) _ _
                        (put-All 25 (codes "address") req.address v24 h24)
                        λ v25 h25. put-All 27 (codes "phone") req.phone v25 h25

  put_card_name-All :
      (table name : Text) (vals : Values)
      → All P vals
      → Holds (All P) (put_card_name u table name vals)
  unfolding put_card_name
  put_card_name-All table name vals h =
      named (encode_field u table (trim_edges u name) (kupain_width 17))
        (own 17 table (trim_edges u name))
    where
      named :
          (o : Outcome FieldError Bytes)
          → ((b : Bytes) → o ≡ ok b → P (17, b))
          → Holds (All P) (stored_name table name vals o)
      named (ok b) f = unfold stored_name in (f b refl, h)
      named (err e) f = unfold stored_name in tt

  payment-All :
      (req : ReceiptRequest) (names : ReceiptCardNames) (vals : Values)
      → All P vals
      → Holds (λ (p : Values × List Warning). All P p.0) (payment_values u req names vals)
  unfolding payment_values
  payment-All req names vals h =
      let Q : Values × List Warning → Type 0 = λ p. All P p.0 in
      let (name, table, warnings) = card_name u req.card_issuer req.card_brand names in
      after Q (format_amount req.amount_minor) _ λ amount.
        Holds-bind (All P) Q _ _ (put-All 12 (codes "amountMinor") amount vals h) λ v12 h12.
          after Q (check (is_one req.installments) (codes "installments") must_be_one) _ λ _.
            Holds-bind (All P) Q _ _ (put-All 16 (codes "installments") (codes "1") v12 h12)
              λ v16 h16.
                after Q (check (is_card_code req.card_issuer) (codes "cardIssuer") not_digits) _
                  λ _.
                    after Q (check (is_card_code req.card_brand) (codes "cardBrand") not_digits) _
                      λ _.
                        Holds-bind (All P) Q _ _ (put_card_name-All table name v16 h16)
                          λ v17 h17. h17

  document-All : (req : ReceiptRequest) (number : ℤ) → Holds (All P) (document_values u req number)
  unfolding document_values
  document-All req number = after (All P) (required u (codes "accountKey") req.account_key) _ λ _.
      Holds-bind (All P) (All P) _ _ (put-All 2 (codes "accountKey") req.account_key [] tt) λ v2 h2.
        after (All P) (check_number number) _ λ n.
          Holds-bind (All P) (All P) _ _ (put-All 3 (codes "receiptNumber") n v2 h2) λ v3 h3.
            Holds-bind (All P) (All P) _ _ (put-All 4 (codes "receiptType") (codes "33") v3 h3)
              λ v4 h4. after (All P) (day_or_refuse (u.day_text req.settled_date)) _ λ day.
                Holds-bind (All P) (All P) _ _ (put-All 5 (codes "settledDate") day v4 h4) λ v5 h5.
                  after (All P) (required u (codes "remarks") req.remarks) _ λ _.
                    put-All 7 (codes "remarks") req.remarks ((6, value_of 5 v5) ∷ v5)
                      (copied v5 h5, h5)

  pub kupain_values-All :
      (req : ReceiptRequest) (number : ℤ) (names : ReceiptCardNames)
      → Holds (λ (p : Values × List Warning). All P p.0) (kupain_values u req number names)
  unfolding kupain_values
  kupain_values-All req number names =
      let Q : Values × List Warning → Type 0 = λ p. All P p.0 in
      Holds-bind (All P) Q _ _ (document-All req number) λ v7 h7.
        Holds-bind Q Q _ _ (payment-All req names v7 h7) λ p hp.
          Holds-bind (All P) Q _ _ (account-All req p.0 hp)
            λ v27 h27. Holds-bind (All P) Q _ _ (contact-All req v27 h27) λ v43 h43. h43
