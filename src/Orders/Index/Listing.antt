-- ===== src/Orders/Index/Listing.antt =====
-- internal/erp/hasavshevet/order_index.go, `all`: every readable entry, sorted by number, and the
-- problems met on the way.
use digi_erp_connector.Base.{
  ℕ, ◌≤◌, ◌≡◌, refl, sym, subst, All-map, inl, inr, arith, Text, codes, text_eq, text_eq_iff, Bool,
  true, false, Option, none, some, if◌then◌else◌, ◌==◌, ◌++◌, List, [], ◌∷◌, Outcome, ok, err,
  Bool-cases, All, has_prefix, strip_suffix, strip_suffix-append, Pairwise,
}
use mathlib.Core.List.{Mem, mem-cons_self, mem-cons_of_mem}
use digi_erp_connector.Base.Dict
use digi_erp_connector.Base.Sort
use digi_erp_connector.Orders.Types.{Error, Entry}
use digi_erp_connector.Orders.Index.{
  IndexDir, FileContent, DirItem, folder, locked, file, json_suffix, load_stem, found_item,
  path_for,
}
use digi_erp_connector.Orders.Index.Laws.{load_stem-IsEntry}

-- An entry that cannot be read, by its stem; a number that two entries hold.
pub data Problem : Type 0 where
  unreadable_entry : Text → Problem
  shared_number : ℕ → Problem

is_folder : DirItem → Bool
is_folder folder = true
is_folder locked = false
is_folder (file _) = false

-- The stem of a directory item that is an entry; none for a folder, a temp file or another name.
listed_stem : Text → DirItem → Option Text
unfolding is_folder
listed_stem name item =
    if is_folder item
    then none
    else if has_prefix name (codes ".")
    then none
    else strip_suffix name json_suffix

unfoldable pub rank : Entry → ℕ
rank e = e.number

-- Each problem of two neighbours with one number.
shared_from : ℕ → List Entry → List Problem
shared_from n [] = []
shared_from n (e ∷ es) =
    let rest = shared_from e.number es in if e.number == n then shared_number n ∷ rest else rest

unfoldable pub shared_problems : List Entry → List Problem
unfolding shared_from
shared_problems [] = []
shared_problems (e ∷ es) = shared_from e.number es

module _ (stem : Text → Text) where
  add_loaded :
      Text → Outcome Error (Option Entry) → List Entry × List Problem → List Entry × List Problem
  add_loaded s (err x) (es, ps) = (es, unreadable_entry s ∷ ps)
  add_loaded s (ok none) (es, ps) = (es, ps)
  add_loaded s (ok (some e)) (es, ps) = (e ∷ es, ps)

  add_item : IndexDir → Option Text → List Entry × List Problem → List Entry × List Problem
  unfolding add_loaded
  add_item d none found = found
  add_item d (some s) found = add_loaded s (load_stem stem d s) found

  collect : IndexDir → IndexDir → List Entry × List Problem
  unfolding add_item listed_stem
  collect d [] = ([], [])
  collect d ((name, item) ∷ rest) = add_item d (listed_stem name item) (collect d rest)

  unfoldable pub all : IndexDir → List Entry × List Problem
  unfolding collect shared_problems rank
  all d =
      let (found, problems) = collect d d in
      let entries = Sort.sort rank found in (entries, problems ++ shared_problems entries)

listed_stem-path_for :
    (s : Text) (c : FileContent)
    → has_prefix (path_for s) (codes ".") ≡ false
    → listed_stem (path_for s) (file c) ≡ some s
unfolding listed_stem path_for
listed_stem-path_for s c visible = rw (visible, strip_suffix-append s json_suffix)

module _ (stem : Text → Text) where
  pub all-Pairwise : (d : IndexDir) → Pairwise (Sort.InOrder rank) (all stem d).0
  unfolding all
  all-Pairwise d = Sort.sort-Pairwise rank (collect stem d d).0

module _ (stem : Text → Text) (P : Entry → Type 0) where
  add_item-All :
      (d : IndexDir) (o : Option Text) (found : List Entry × List Problem)
      → ((s : Text) (e : Entry) → load_stem stem d s ≡ ok (some e) → P e)
      → All P found.0
      → All P (add_item stem d o found).0
  unfolding add_item
  add_item-All d none found h f = f
  add_item-All d (some s) found h f = loaded (load_stem stem d s) refl
    where
      loaded :
          (r : Outcome Error (Option Entry))
          → load_stem stem d s ≡ r
          → All P (add_loaded stem s r found).0
      loaded (err x) e = f
      loaded (ok none) e = f
      loaded (ok (some a)) e = (h s a e, f)

  collect-All :
      (d items : IndexDir)
      → ((s : Text) (e : Entry) → load_stem stem d s ≡ ok (some e) → P e)
      → All P (collect stem d items).0
  unfolding collect
  collect-All d [] h = tt
  collect-All d ((name, item) ∷ rest) h =
      add_item-All d (listed_stem name item) (collect stem d rest) h (collect-All d rest h)

  -- The listing has nothing but entries that load.
  pub all-All :
      (d : IndexDir)
      → ((s : Text) (e : Entry) → load_stem stem d s ≡ ok (some e) → P e)
      → All P (all stem d).0
  unfolding all
  all-All d h = Sort.sort-All P rank (collect stem d d).0 (collect-All d d h)

  add_item-All_inv :
      (d : IndexDir) (o : Option Text) (found : List Entry × List Problem)
      → All P (add_item stem d o found).0
      → All P found.0
  unfolding add_item
  add_item-All_inv d none found h = h
  add_item-All_inv d (some s) found h = loaded (load_stem stem d s) h
    where
      loaded :
          (r : Outcome Error (Option Entry)) → All P (add_loaded stem s r found).0 → All P found.0
      loaded (err x) g = g
      loaded (ok none) g = g
      loaded (ok (some a)) g = g.1

  add_item-head :
      (d : IndexDir) (s : Text) (e : Entry) (found : List Entry × List Problem)
      → load_stem stem d s ≡ ok (some e)
      → All P (add_item stem d (some s) found).0
      → P e
  unfolding add_item
  add_item-head d s e found l = rw (l, add_loaded) (λ h. h.0)

  collect-complete :
      (d items : IndexDir) (s : Text) (item : DirItem) (e : Entry)
      → listed_stem (path_for s) item ≡ some s
      → load_stem stem d s ≡ ok (some e)
      → Dict.lookup (path_for s) items ≡ some item
      → All P (collect stem d items).0
      → P e
  unfolding collect Dict.lookup
  collect-complete d [] s item e n l h a = cc
  collect-complete d ((name, it) ∷ rest) s item e n l h a =
      elim (Bool-cases (text_eq name (path_for s))) [
        | inl same ↦
            let here : listed_stem name it ≡ some s =
              ground (arith, text_eq_iff name (path_for s)) in
            add_item-head d s e (collect stem d rest) l
              (subst (λ o. All P (add_item stem d o (collect stem d rest)).0) here a)
        | inr differ ↦
            collect-complete d rest s item e n l (ground arith)
              (add_item-All_inv d (listed_stem name it) (collect stem d rest) a)
      ]

  -- Every key whose entry loads is in the listing, if its file name does not begin with a dot.
  pub all-complete :
      (d : IndexDir) (s : Text) (e : Entry)
      → has_prefix (path_for s) (codes ".") ≡ false
      → load_stem stem d s ≡ ok (some e)
      → All P (all stem d).0
      → P e
  unfolding all
  all-complete d s e visible l a = found (Dict.lookup (path_for s) d) refl (unfold load_stem in l)
    where
      found :
          (o : Option DirItem)
          → Dict.lookup (path_for s) d ≡ o
          → found_item stem o s ≡ ok (some e)
          → P e
      found none q g = unfold found_item in cc
      found (some folder) q g = unfold found_item in cc
      found (some locked) q g = unfold found_item in cc
      found (some (file c)) q g =
          collect-complete d d s (file c) e (listed_stem-path_for s c visible) l q
            (Sort.sort-All_inv P rank (collect stem d d).0 a)

all_members : (l : List Entry) → All (λ e. Mem e l) l
all_members [] = tt
all_members (e ∷ l) = (mem-cons_self, All-map (λ x m. mem-cons_of_mem e m) l (all_members l))

-- If an entry loads from a file whose name does not begin with a dot, it is in the listing of the
-- index, which is in the order of the numbers and has nothing but entries that load from the file
-- of their own key.
pub all_lem :
    (stem : Text → Text) (d : IndexDir) (s : Text) (e : Entry)
    → has_prefix (path_for s) (codes ".") ≡ false
    → load_stem stem d s ≡ ok (some e)
    → Mem e (all stem d).0
      × Pairwise (λ (a b : Entry). a.number ≤ b.number) (all stem d).0
      × All (λ x. load_stem stem d (stem x.key) ≡ ok (some x)) (all stem d).0
all_lem stem d s e visible l = (
  all-complete stem (λ x. Mem x (all stem d).0) d s e visible l (all_members (all stem d).0),
  unfold rank in all-Pairwise stem d,
  all-All stem (λ x. load_stem stem d (stem x.key) ≡ ok (some x)) d
      (λ t x m.
        subst (λ u. load_stem stem d u ≡ ok (some x)) (sym (load_stem-IsEntry stem d t x m).1) m),
)
