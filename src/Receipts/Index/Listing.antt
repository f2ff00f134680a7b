-- ===== src/Receipts/Index/Listing.antt =====
-- internal/erp/hasavshevet/receipt_index.go, `all`: the listing has the entries that load, in the order
-- of their numbers, and fails when one cannot be read or two hold one number.
use digi_erp_connector.Base.{
  ◌≡◌, refl, sym, subst, inl, inr, arith, Text, codes, text_eq, text_eq_iff, Bool, true, false,
  Option, none, some, List, [], ◌∷◌, Outcome, ok, err, Bool-cases, All, has_prefix,
  strip_suffix-append, Pairwise,
}
use digi_erp_connector.Base.Dict
use digi_erp_connector.Base.Sort
use digi_erp_connector.Receipts.Types.{Receipt, ReceiptError}
use digi_erp_connector.Receipts.Index.{
  ReceiptDir, ReceiptItem, ReceiptFile, folder, locked, file, json_suffix, path, load, found_item,
  listed_key, add_item, add_loaded, collect, unshared, all, rank,
}
use digi_erp_connector.Receipts.Index.Laws.{Loads}

listed_key-path :
    (k : Text) (c : ReceiptFile)
    → has_prefix (path k) (codes ".") ≡ false
    → listed_key (path k) (file c) ≡ some k
unfolding listed_key path
listed_key-path k c visible = rw (visible, strip_suffix-append k json_suffix)

module _ (P : Receipt → Type 0) where
  add_loaded-All :
      (o : Outcome ReceiptError (Option Receipt)) (rest : Outcome ReceiptError (List Receipt))
      (es : List Receipt)
      → add_loaded o rest ≡ ok es
      → ((e : Receipt) → o ≡ ok (some e) → P e)
      → ((fs : List Receipt) → rest ≡ ok fs → All P fs)
      → All P es
  unfolding add_loaded
  add_loaded-All (err x) rest es h p q = absurd (cc)
  add_loaded-All (ok none) rest es h p q = q es h
  add_loaded-All (ok (some e)) (err x) es h p q = absurd (cc)
  add_loaded-All (ok (some e)) (ok fs) es h p q =
      let same : e ∷ fs ≡ es = cc in subst (All P) same (p e refl, q fs refl)

  add_loaded-inv :
      (o : Outcome ReceiptError (Option Receipt)) (rest : Outcome ReceiptError (List Receipt))
      (es : List Receipt)
      → add_loaded o rest ≡ ok es
      → All P es
      → ((e : Receipt) → o ≡ ok (some e) → P e) × ((fs : List Receipt) × (rest ≡ ok fs) × All P fs)
  unfolding add_loaded
  add_loaded-inv (err x) rest es h a = absurd (cc)
  add_loaded-inv (ok none) rest es h a = ((λ e g. absurd (cc)), (es, h, a))
  add_loaded-inv (ok (some e)) (err x) es h a = absurd (cc)
  add_loaded-inv (ok (some e)) (ok fs) es h a =
      let same : es ≡ e ∷ fs = cc in
      let b : All P (e ∷ fs) = subst (All P) same a in
      ((λ f g. let it : e ≡ f = cc in subst P it b.0), (fs, refl, b.1))

  add_item-All :
      (d : ReceiptDir) (o : Option Text) (rest : Outcome ReceiptError (List Receipt))
      (es : List Receipt)
      → add_item d o rest ≡ ok es
      → ((k : Text) (e : Receipt) → Loads d k e → P e)
      → ((fs : List Receipt) → rest ≡ ok fs → All P fs)
      → All P es
  unfolding add_item
  add_item-All d none rest es h p q = q es h
  add_item-All d (some k) rest es h p q = add_loaded-All (load d k) rest es h (p k) q

  collect-All :
      (d items : ReceiptDir) (es : List Receipt)
      → collect d items ≡ ok es
      → ((k : Text) (e : Receipt) → Loads d k e → P e)
      → All P es
  unfolding collect
  collect-All d [] es h p = let same : [] ≡ es = cc in subst (All P) same tt
  collect-All d ((name, item) ∷ items) es h p =
      add_item-All d (listed_key name item) (collect d items) es h p
        (λ fs r. collect-All d items fs r p)

  add_item-inv :
      (d : ReceiptDir) (o : Option Text) (rest : Outcome ReceiptError (List Receipt))
      (es : List Receipt)
      → add_item d o rest ≡ ok es
      → All P es
      → ((k : Text) (e : Receipt) → o ≡ some k → Loads d k e → P e)
        × ((fs : List Receipt) × (rest ≡ ok fs) × All P fs)
  unfolding add_item
  add_item-inv d none rest es h a = ((λ k e g. absurd (cc)), (es, h, a))
  add_item-inv d (some j) rest es h a =
      let (first, others) = add_loaded-inv (load d j) rest es h a in
      ((λ k e g l. let it : j ≡ k = cc in first e (subst (λ x. Loads d x e) (sym it) l)), others)

  collect-complete :
      (d items : ReceiptDir) (k : Text) (item : ReceiptItem) (e : Receipt) (es : List Receipt)
      → collect d items ≡ ok es
      → listed_key (path k) item ≡ some k
      → Loads d k e
      → Dict.lookup (path k) items ≡ some item
      → All P es
      → P e
  unfolding collect Dict.lookup
  collect-complete d [] k item e es h n l at a = absurd (cc)
  collect-complete d ((name, it) ∷ items) k item e es h n l at a =
      let (first, (fs, r, b)) = add_item-inv d (listed_key name it) (collect d items) es h a in
      elim (Bool-cases (text_eq name (path k))) [
        | inl same ↦
            let here : listed_key name it ≡ some k = ground (arith, text_eq_iff name (path k)) in
            first k e here l
        | inr differ ↦ collect-complete d items k item e fs r n l (ground arith) b
      ]

unshared-ok :
    (o : Outcome ReceiptError (List Receipt)) (es : List Receipt)
    → unshared o ≡ ok es
    → (fs : List Receipt) × (o ≡ ok fs) × (es ≡ Sort.sort rank fs)
unfolding unshared
unshared-ok (err x) es h = absurd (cc)
unshared-ok (ok fs) es h = (fs, refl, ground arith)

-- A listing that succeeds is the loop's, sorted.
all-ok :
    (d : ReceiptDir) (listed : Bool) (es : List Receipt)
    → all d listed ≡ ok es
    → (fs : List Receipt) × (collect d d ≡ ok fs) × (es ≡ Sort.sort rank fs)
unfolding all
all-ok d false es h = absurd (cc)
all-ok d true es h = unshared-ok (collect d d) es h

module _ (P : Receipt → Type 0) where
  -- The listing has nothing but entries that load.
  pub all-All :
      (d : ReceiptDir) (listed : Bool) (es : List Receipt)
      → all d listed ≡ ok es
      → ((k : Text) (e : Receipt) → Loads d k e → P e)
      → All P es
  all-All d listed es h p =
      let (fs, c, same) = all-ok d listed es h in
      subst (All P) (sym same) (Sort.sort-All P rank fs (collect-All P d d fs c p))

  -- Every key whose entry loads is in the listing, if its file name does not begin with a dot.
  pub all-complete :
      (d : ReceiptDir) (listed : Bool) (es : List Receipt) (k : Text) (e : Receipt)
      → all d listed ≡ ok es
      → has_prefix (path k) (codes ".") ≡ false
      → Loads d k e
      → All P es
      → P e
  all-complete d listed es k e h visible l a =
      let (fs, c, same) = all-ok d listed es h in
      let b = Sort.sort-All_inv P rank fs (subst (All P) same a) in
      found fs c b (Dict.lookup (path k) d) refl (unfold load in l)
    where
      found :
          (fs : List Receipt)
          → collect d d ≡ ok fs
          → All P fs
          → (o : Option ReceiptItem) → Dict.lookup (path k) d ≡ o
          → found_item o k ≡ ok (some e)
          → P e
      found fs c b none q g = unfold found_item in absurd (cc)
      found fs c b (some folder) q g = unfold found_item in absurd (cc)
      found fs c b (some locked) q g = unfold found_item in absurd (cc)
      found fs c b (some (file f)) q g =
          collect-complete P d d k (file f) e fs c (listed_key-path k f visible) l q b

-- The listing is in the order of its numbers.
pub all-Pairwise :
    (d : ReceiptDir) (listed : Bool) (es : List Receipt)
    → all d listed ≡ ok es
    → Pairwise (Sort.InOrder rank) es
all-Pairwise d listed es h =
    let (fs, c, same) = all-ok d listed es h in
    subst (Pairwise (Sort.InOrder rank)) (sym same) (Sort.sort-Pairwise rank fs)
