-- ===== src/Orders/Index/Laws.antt =====
-- internal/erp/hasavshevet/order_index.go: what a save leaves for the loads that follow.
use digi_erp_connector.Base.{
  ◌<◌, ◌≡◌, refl, subst, ◌⊎◌, inl, inr, arith, Text, text_eq, text_eq_iff, text_eq_refl,
  text_eq_sound, is_empty, Bool, true, false, Option, none, some, if◌then◌else◌, Outcome, ok, err,
  Bool-cases,
}
use mathlib.Core.List.{append_cancel_right}
use digi_erp_connector.Base.Int.{pos}
use digi_erp_connector.Base.Dict
use digi_erp_connector.Orders.Types.{
  Error, index_not_saved, Entry, OrderState, reserved, written, retryable, failed,
}
use digi_erp_connector.Orders.Index.{
  IndexDir, DirItem, folder, locked, file, FileContent, json, not_json, path_for, json_suffix,
  marshal, decode, decode_fields, load_stem, found_item, for_key, load, save, parse_state,
  state_text, RawEntry,
}

-- What every entry that the queue holds satisfies: decodeOrderIndexEntry checks it.
pub record IsEntry (e : Entry) : Type 0 where
  pub has_key : is_empty e.key ≡ false
  pub positive : 0 < e.number

parse-state_text : (s : OrderState) → parse_state (state_text s) ≡ some s
unfolding parse_state state_text text_eq
parse-state_text reserved = refl
parse-state_text written = refl
parse-state_text retryable = refl
parse-state_text failed = refl

decode_fields-marshal :
    (e : Entry)
    → 0 < e.number
    → decode_fields (marshal e) (pos e.number) (some e.state) (pos e.retries) ≡ ok e
unfolding decode_fields
decode_fields-marshal e h = ground arith

path_for_injective : (s t : Text) → path_for s ≡ path_for t → s ≡ t
unfolding path_for
path_for_injective s t h = append_cancel_right s t json_suffix h

path_for_differs : (s t : Text) → text_eq s t ≡ false → text_eq (path_for s) (path_for t) ≡ false
path_for_differs s t h = elim (Bool-cases (text_eq (path_for s) (path_for t))) [
  | inr differ ↦ differ
  | inl same ↦
      let e = path_for_injective s t (text_eq_sound _ _ same) in cc (h, (text_eq_iff s t).1 e)
]

module _ (stem : Text → Text) where
  -- An entry is read back whole from what `save` writes for it.
  pub decode-marshal :
      (e : Entry) → IsEntry e → decode stem (json (marshal e) false) (stem e.key) ≡ ok e
  unfolding decode
  decode-marshal e v =
      rw (v.has_key, text_eq_refl (stem e.key), parse-state_text e.state)
        (decode_fields-marshal e v.positive)

  saved : IndexDir → Entry → IndexDir
  saved d e = Dict.insert (path_for (stem e.key)) (file (json (marshal e) false)) d

  save_cases :
      (d : IndexDir) (writes : Bool) (e : Entry)
      → (save stem d writes e ≡ (saved d e, ok tt))
        ⊎ (save stem d writes e ≡ (d, err index_not_saved))
  unfolding save saved
  save_cases d writes e = ground arith

  pub found_item-file :
      (c : FileContent) (s : Text) (e : Entry)
      → decode stem c s ≡ ok e
      → found_item stem (some (file c)) s ≡ ok (some e)
  unfolding found_item
  found_item-file c s e h = ground arith

  load_stem-saved :
      (d : IndexDir) (e : Entry)
      → IsEntry e
      → (s : Text)
      → load_stem stem (saved d e) s
        ≡ (if text_eq (stem e.key) s then ok (some e) else load_stem stem d s)
  unfolding saved
  load_stem-saved d e v s = elim (Bool-cases (text_eq (stem e.key) s)) [
    | inl same ↦ rw same (
        subst
          (λ t.
            load_stem stem (Dict.insert (path_for (stem e.key)) (file (json (marshal e) false)) d) t
            ≡ ok (some e))
          (text_eq_sound _ _ same)
          (unfold load_stem in
            rw (Dict.lookup-insert_self (path_for (stem e.key)) (file (json (marshal e) false)) d)
              (found_item-file _ _ e (decode-marshal e v))))
    | inr differ ↦ rw differ (
        unfold load_stem in
        rw (
          Dict.lookup-insert_ne (path_for (stem e.key)) (path_for s) (file (json (marshal e) false))
            d (path_for_differs _ _ differ)))
  ]

  -- Saving an entry with a key and a number above 0 either succeeds, and then its stem loads
  -- exactly that entry and every other stem loads what it did before, or fails and leaves the
  -- index as it was.
  pub load_stem-save :
      (d : IndexDir) (writes : Bool) (e : Entry)
      → IsEntry e
      → (((save stem d writes e).1 ≡ ok tt)
          × ((s : Text)
              → load_stem stem (save stem d writes e).0 s
                ≡ (if text_eq (stem e.key) s then ok (some e) else load_stem stem d s)))
        ⊎ (save stem d writes e ≡ (d, err index_not_saved))
  load_stem-save d writes e v = elim (save_cases d writes e) [
    | inl done ↦ inl (rw done refl, λ s. rw done (load_stem-saved d e v s))
    | inr refused ↦ inr refused
  ]

  decode_fields-IsEntry :
      (r : RawEntry) (e : Entry)
      → is_empty r.key ≡ false
      → decode_fields r r.number (parse_state r.state) r.retries ≡ ok e
      → IsEntry e × (e.key ≡ r.key)
  unfolding decode_fields
  decode_fields-IsEntry r e h d = ground arith

  decode-IsEntry :
      (c : FileContent) (s : Text) (e : Entry)
      → decode stem c s ≡ ok e
      → IsEntry e × (stem e.key ≡ s)
  unfolding decode
  decode-IsEntry not_json s e h = cc
  decode-IsEntry (json r true) s e h = cc
  decode-IsEntry (json r false) s e h =
      ground (arith, text_eq_iff (stem r.key) s, decode_fields-IsEntry r e)

  -- What loads is an entry whose key its file is named for.
  pub load_stem-IsEntry :
      (d : IndexDir) (s : Text) (e : Entry)
      → load_stem stem d s ≡ ok (some e)
      → IsEntry e × (stem e.key ≡ s)
  unfolding load_stem
  load_stem-IsEntry d s e h = found (Dict.lookup (path_for s) d) h
    where
      found :
          (o : Option DirItem) → found_item stem o s ≡ ok (some e) → IsEntry e × (stem e.key ≡ s)
      found none g = cc
      found (some folder) g = cc
      found (some locked) g = cc
      found (some (file c)) g = decode-IsEntry c s e (ground arith)

  -- A key that loads nothing has no file; a key that loads an entry loads its own.
  pub load-none :
      (d : IndexDir) (k : Text) → load stem d k ≡ ok none → load_stem stem d (stem k) ≡ ok none
  unfolding load
  load-none d k h = found (load_stem stem d (stem k)) h
    where
      found : (o : Outcome Error (Option Entry)) → for_key stem k o ≡ ok none → o ≡ ok none
      found (err x) g = unfold for_key in cc
      found (ok none) g = refl
      found (ok (some e)) g = unfold for_key in ground arith

  -- A key finds the entry of its own under its stem.
  pub load_own :
      (d : IndexDir) (k : Text) (e : Entry)
      → load_stem stem d (stem k) ≡ ok (some e)
      → e.key ≡ k
      → load stem d k ≡ ok (some e)
  unfolding load for_key
  load_own d k e h own = rw (h, load) (ground (arith, text_eq_iff e.key k))

  pub load-some :
      (d : IndexDir) (k : Text) (e : Entry)
      → load stem d k ≡ ok (some e)
      → (load_stem stem d (stem k) ≡ ok (some e)) × (e.key ≡ k)
  unfolding load
  load-some d k e h = found (load_stem stem d (stem k)) h
    where
      found :
          (o : Outcome Error (Option Entry))
          → for_key stem k o ≡ ok (some e)
          → (o ≡ ok (some e)) × (e.key ≡ k)
      found (err x) g = unfold for_key in cc
      found (ok none) g = unfold for_key in cc
      found (ok (some f)) g = unfold for_key in ground (arith, text_eq_iff f.key k)
