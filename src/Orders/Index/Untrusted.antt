-- ===== src/Orders/Index/Untrusted.antt =====
-- internal/erp/hasavshevet/order_index.go: the files that a load refuses, by what is in them, and the
-- file of an entry as it was saved.
use digi_erp_connector.Base.{
  ◌≡◌, ◌≢◌, ◌⊎◌, inl, inr, refl, sym, ap, ◌∙◌, ℕ, suc, Text, codes, text_eq, text_eq_ne,
  text_eq_refl, is_empty, true, false, Option, none, some, if_both, if_false, if_true, Outcome, ok,
  err,
}
use digi_erp_connector.Base.Dict
use digi_erp_connector.Base.Int.{ℤ, pos, negsuc}
use digi_erp_connector.Orders.Types.{Error, index_unreadable, Entry, OrderState}
use digi_erp_connector.Orders.Index.{
  IndexDir, DirItem, folder, locked, file, json, not_json, RawEntry, path_for, marshal, decode,
  decode_fields, load_stem, found_item, for_key, load, parse_state,
}
use digi_erp_connector.Orders.Index.Laws.{IsEntry, decode-marshal, found_item-file}

-- None of the four texts of a state.
pub record IsNoState (s : Text) : Type 0 where
  pub reserved : s ≢ codes "reserved"
  pub written : s ≢ codes "written"
  pub retryable : s ≢ codes "retryable"
  pub failed : s ≢ codes "failed"

-- What stands under the file name of a key and is not an entry of that key.
pub data IsUntrusted (key : Text) : DirItem → Type 0 where
  is_folder : IsUntrusted key folder
  is_locked : IsUntrusted key locked
  no_object : IsUntrusted key (file not_json)
  more_data : (r : RawEntry) → IsUntrusted key (file (json r true))
  other_key : (r : RawEntry) → r.key ≢ key → IsUntrusted key (file (json r false))
  zero_number : (r : RawEntry) → r.number ≡ pos 0 → IsUntrusted key (file (json r false))
  negative_number :
      (r : RawEntry) (n : ℕ) → r.number ≡ negsuc n → IsUntrusted key (file (json r false))
  no_state : (r : RawEntry) → IsNoState r.state → IsUntrusted key (file (json r false))
  negative_retries :
      (r : RawEntry) (n : ℕ) → r.retries ≡ negsuc n → IsUntrusted key (file (json r false))

parse_state-none : (s : Text) → IsNoState s → parse_state s ≡ none
unfolding parse_state
parse_state-none s h =
    if_false _ _ (text_eq_ne s _ h.reserved)
    ∙ if_false _ _ (text_eq_ne s _ h.written)
    ∙ if_false _ _ (text_eq_ne s _ h.retryable)
    ∙ if_false _ _ (text_eq_ne s _ h.failed)

-- The last tests of the decoder refuse an entry, or keep its key.
decode_fields-cases :
    (r : RawEntry) (n : ℤ) (o : Option OrderState) (t : ℤ)
    → (decode_fields r n o t ≡ err index_unreadable)
      ⊎ ((e : Entry) × (decode_fields r n o t ≡ ok e) × (e.key ≡ r.key))
unfolding decode_fields
decode_fields-cases r (pos ℕ.zero) o t = inl refl
decode_fields-cases r (pos (suc n)) none t = inl refl
decode_fields-cases r (pos (suc n)) (some st) (pos t) = inr (_, refl, refl)
decode_fields-cases r (pos (suc n)) (some st) (negsuc t) = inl refl
decode_fields-cases r (negsuc n) o t = inl refl

no_state_refused : (r : RawEntry) (n t : ℤ) → decode_fields r n none t ≡ err index_unreadable
unfolding decode_fields
no_state_refused r (pos ℕ.zero) t = refl
no_state_refused r (pos (suc n)) t = refl
no_state_refused r (negsuc n) t = refl

negative_retries_refused :
    (r : RawEntry) (n : ℤ) (o : Option OrderState) (t : ℕ)
    → decode_fields r n o (negsuc t) ≡ err index_unreadable
unfolding decode_fields
negative_retries_refused r (pos ℕ.zero) o t = refl
negative_retries_refused r (pos (suc n)) none t = refl
negative_retries_refused r (pos (suc n)) (some st) t = refl
negative_retries_refused r (negsuc n) o t = refl

module _ (stem : Text → Text) where
  -- A file that the decoder refuses, or whose entry is another key's.
  abbrev Refused : Text → Outcome Error Entry → Type 0
  Refused key o =
      for_key stem key (elim o [ ok e ↦ ok (some e) | err x ↦ err x ]) ≡ err index_unreadable

  fields-Refused :
      (r : RawEntry) (key s : Text)
      → Refused key (decode_fields r r.number (parse_state r.state) r.retries)
      → Refused key (decode stem (json r false) s)
  unfolding decode for_key
  fields-Refused r key s h =
      if_both (Refused key) (is_empty r.key) refl
        (if_both (Refused key) (text_eq (stem r.key) s) h refl)

  other_key-Refused :
      (r : RawEntry) (key : Text) (o : Outcome Error Entry)
      → r.key ≢ key
      → (o ≡ err index_unreadable) ⊎ ((e : Entry) × (o ≡ ok e) × (e.key ≡ r.key))
      → Refused key o
  unfolding for_key
  other_key-Refused r key o other (inl x) = rw x refl
  other_key-Refused r key o other (inr (e, x, same)) =
      rw x (if_false _ _ (text_eq_ne e.key key (λ h. other (sym same ∙ h))))

  error-Refused : (key : Text) (o : Outcome Error Entry) → o ≡ err index_unreadable → Refused key o
  unfolding for_key
  error-Refused key o x = rw x refl

  item_refused :
      (key : Text) (item : DirItem)
      → IsUntrusted key item
      → for_key stem key (found_item stem (some item) (stem key)) ≡ err index_unreadable
  unfolding found_item for_key decode
  item_refused key _ is_folder = refl
  item_refused key _ is_locked = refl
  item_refused key _ no_object = refl
  item_refused key _ (more_data r) = refl
  item_refused key _ (other_key r h) =
      fields-Refused r key (stem key) (other_key-Refused r key _ h (decode_fields-cases r _ _ _))
  item_refused key _ (zero_number r h) = fields-Refused r key (stem key) (
      error-Refused key _ (
        ap (λ n. decode_fields r n (parse_state r.state) r.retries) h
        ∙ (unfold decode_fields in refl)))
  item_refused key _ (negative_number r n h) = fields-Refused r key (stem key) (
      error-Refused key _ (
        ap (λ n. decode_fields r n (parse_state r.state) r.retries) h
        ∙ (unfold decode_fields in refl)))
  item_refused key _ (no_state r h) = fields-Refused r key (stem key) (
      error-Refused key _ (
        ap (λ o. decode_fields r r.number o r.retries) (parse_state-none r.state h)
        ∙ no_state_refused r r.number r.retries))
  item_refused key _ (negative_retries r n h) = fields-Refused r key (stem key) (
      error-Refused key _ (
        ap (λ t. decode_fields r r.number (parse_state r.state) t) h
        ∙ negative_retries_refused r r.number (parse_state r.state) n))

  -- Such a file makes the load of its key an error.
  pub load_untrusted :
      (d : IndexDir) (key : Text) (item : DirItem)
      → Dict.lookup (path_for (stem key)) d ≡ some item
      → IsUntrusted key item
      → load stem d key ≡ err index_unreadable
  unfolding load load_stem
  load_untrusted d key item there bad =
      ap (λ o. for_key stem key (found_item stem o (stem key))) there ∙ item_refused key item bad

  -- The file that a save writes is loaded as its entry.
  pub load_marshalled :
      (d : IndexDir) (e : Entry)
      → IsEntry e
      → Dict.lookup (path_for (stem e.key)) d ≡ some (file (json (marshal e) false))
      → load stem d e.key ≡ ok (some e)
  unfolding load load_stem for_key
  load_marshalled d e v there =
      ap (λ o. for_key stem e.key (found_item stem o (stem e.key))) there
      ∙ ap (for_key stem e.key) (found_item-file stem _ _ e (decode-marshal stem e v))
      ∙ if_true _ _ (text_eq_refl e.key)
