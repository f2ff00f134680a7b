-- ===== src/Receipts/Writer/Gapless.antt =====
-- internal/erp/hasavshevet/receipt_writer.go: why the receipt numbers have no gap and no number is
-- imported twice. The part of the invariant that speaks of the index, the store's next number and the
-- runs of the importer; its children carry it through the steps.
pub mod Completing
pub mod Running
pub mod Keeping
pub mod Turns
pub mod Recovering
pub mod Reserving
pub mod Writing
use digi_erp_connector.Base.{
  ℕ, ◌+◌, ◌≤◌, ◌<◌, ◌≡◌, ◌≢◌, refl, sym, ap, subst, ◌∙◌, inl, inr, arith, Text, codes, text_eq,
  Bool, true, false, Option, none, some, List, [], ◌∷◌, Outcome, ok, err, All, All-map, Pairwise,
  has_prefix, ◌⊎◌, Bool-cases, text_eq_sound, ◌==◌, ==_iff,
}
use digi_erp_connector.Receipts.Types.{
  Receipt, ReceiptState, reserved, written, ImportState, not_run,
}
use digi_erp_connector.Receipts.Index.{ReceiptDir, load, path}
use digi_erp_connector.Receipts.Index.Laws.{
  Loads, IsSave, loads_cases, loads_here, loads_there, loads_one, load-IsReceipt,
}

-- A number for which the importer was started belongs to an entry that says so.
pub record IsSpent (d : ReceiptDir) (n : ℕ) : Type 0 where
  pub key : Text
  pub entry : Receipt
  pub loads : Loads d key entry
  pub number : entry.number ≡ n
  pub has_run : entry.import_state ≢ not_run

pub record IsHeld (d : ReceiptDir) (n : ℕ) : Type 0 where
  pub key : Text
  pub entry : Receipt
  pub loads : Loads d key entry
  pub number : entry.number ≡ n

pub record Core (first : ℕ) (d : ReceiptDir) (next : ℕ) (runs : List ℕ) : Type 0 where
  pub seeded : 0 < first
  pub not_below : first ≤ next
  pub held : (m : ℕ) → first ≤ m → m < next → IsHeld d m
  pub in_range : (k : Text) (e : Receipt) → Loads d k e → (first ≤ e.number) × (e.number ≤ next)
  pub unique :
      (k j : Text) (e f : Receipt) → Loads d k e → Loads d j f → e.number ≡ f.number → k ≡ j
  pub visible : (k : Text) (e : Receipt) → Loads d k e → has_prefix (path k) (codes ".") ≡ false
  pub unrun : (k : Text) (e : Receipt) → Loads d k e → e.state ≡ reserved → e.import_state ≡ not_run
  pub spent : All (IsSpent d) runs
  pub once : Pairwise (λ (m n : ℕ). m ≢ n) runs

module _ (d d' : ReceiptDir) (e : Receipt) (law : IsSave d d' e) where
  -- An entry saved again under its key and number.
  pub record IsUpdate (old : Receipt) : Type 0 where
    pub loads : Loads d e.key old
    pub number : e.number ≡ old.number
    pub keeps_run : old.import_state ≢ not_run → e.import_state ≢ not_run
    pub unrun : e.state ≡ reserved → e.import_state ≡ not_run

  -- Every entry after the update holds the number of one under its key before it.
  update-before :
      (old : Receipt)
      → IsUpdate old
      → (k : Text) (f : Receipt) → Loads d' k f
      → (g : Receipt) × Loads d k g × (f.number ≡ g.number)
  update-before old u k f l = elim (loads_cases d d' e k f law l) [
    | inl (here, same) ↦ (
      old,
      subst (λ t. Loads d t old) here u.loads,
      ap (λ (r : Receipt). r.number) same ∙ u.number,
    )
    | inr (_, there) ↦ (f, there, refl)
  ]

  update-after :
      (old : Receipt)
      → IsUpdate old
      → (k : Text) (g : Receipt) → Loads d k g
      → (f : Receipt) × Loads d' k f
        × (f.number ≡ g.number)
        × (g.import_state ≢ not_run → f.import_state ≢ not_run)
  update-after old u k g l = elim (Bool-cases (text_eq e.key k)) [
    | inl same ↦
        let here = text_eq_sound _ _ same in
        let it : old ≡ g = loads_one d k old g (subst (λ t. Loads d t old) here u.loads) l in
        (
          e,
          subst (λ t. Loads d' t e) here (loads_here d d' e law),
          u.number ∙ ap (λ (r : Receipt). r.number) it,
          (λ h. u.keeps_run (λ n. h (ap (λ (r : Receipt). r.import_state) (sym it) ∙ n))),
        )
    | inr differ ↦ (g, loads_there d d' e k g law differ l, refl, λ h. h)
  ]

  -- What the invariant says of one entry stays.
  update-each :
      (P : Text → Receipt → Type 0)
      → P e.key e
      → ((k : Text) (f : Receipt) → Loads d k f → P k f)
      → (k : Text) (f : Receipt) → Loads d' k f
      → P k f
  update-each P new before k f l = elim (loads_cases d d' e k f law l) [
    | inl (here, same) ↦ subst (λ t. P t f) here (subst (P e.key) (sym same) new)
    | inr (_, there) ↦ before k f there
  ]

  pub update-Core :
      {first next : ℕ} {runs : List ℕ} (old : Receipt)
      → IsUpdate old
      → Core first d next runs
      → Core first d' next runs
  update-Core {first} {next} {runs} old u c = record {
    seeded = c.seeded;
    not_below = c.not_below;
    held = λ m low high.
        let h = c.held m low high in
        let (f, l, n, _) = update-after old u h.key h.entry h.loads in
        record { key = h.key; entry = f; loads = l; number = n ∙ h.number };
    in_range =
        update-each (λ k f. (first ≤ f.number) × (f.number ≤ next))
          (subst (λ n. (first ≤ n) × (n ≤ next)) (sym u.number) (c.in_range e.key old u.loads))
          c.in_range;
    unique = λ k j f g l h same.
        let (f', l', n) = update-before old u k f l in
        let (g', h', m) = update-before old u j g h in c.unique k j f' g' l' h' (sym n ∙ same ∙ m);
    visible =
        update-each (λ k f. has_prefix (path k) (codes ".") ≡ false) (c.visible e.key old u.loads)
          c.visible;
    unrun = update-each (λ k f. f.state ≡ reserved → f.import_state ≡ not_run) u.unrun c.unrun;
    spent =
        All-map
          (λ n s.
            let (f, l, m, keeps) = update-after old u s.key s.entry s.loads in
            record {
              key = s.key;
              entry = f;
              loads = l;
              number = m ∙ s.number;
              has_run = keeps s.has_run;
            })
          runs c.spent;
    once = c.once;
  }

  -- A first entry for a key, under the next number.
  pub new-Core :
      {first next : ℕ} {runs : List ℕ}
      → load d e.key ≡ ok none
      → e.number ≡ next
      → has_prefix (path e.key) (codes ".") ≡ false
      → e.import_state ≡ not_run
      → ((k : Text) (f : Receipt) → Loads d k f → f.number < next)
      → Core first d next runs
      → Core first d' next runs
  new-Core {first} {next} {runs} nothing number visible unrun below c = record {
    seeded = c.seeded;
    not_below = c.not_below;
    held = λ m low high.
        let h = c.held m low high in
        record {
          key = h.key;
          entry = h.entry;
          loads = stays h.key h.entry h.loads;
          number = h.number;
        };
    in_range =
        update-each (λ k f. (first ≤ f.number) × (f.number ≤ next))
          (let at = c.not_below in (omega (arith, at, number), omega (arith, number))) c.in_range;
    unique =
        λ k j f g l h same. both (loads_cases d d' e k f law l) (loads_cases d d' e j g law h) same;
    visible = update-each (λ k f. has_prefix (path k) (codes ".") ≡ false) visible c.visible;
    unrun = update-each (λ k f. f.state ≡ reserved → f.import_state ≡ not_run) (λ _. unrun) c.unrun;
    spent =
        All-map
          (λ n s. record {
            key = s.key;
            entry = s.entry;
            loads = stays s.key s.entry s.loads;
            number = s.number;
            has_run = s.has_run;
          })
          runs c.spent;
    once = c.once;
  }
    where
      stays : (k : Text) (f : Receipt) → Loads d k f → Loads d' k f
      stays k f l = elim (Bool-cases (text_eq e.key k)) [
        | inl same ↦
            let at : load d k ≡ ok none =
              subst (λ t. load d t ≡ ok none) (text_eq_sound _ _ same) nothing in
            absurd (cc (at, l))
        | inr differ ↦ loads_there d d' e k f law differ l
      ]

      both :
          {k j : Text} {f g : Receipt}
          → ((e.key ≡ k) × (f ≡ e)) ⊎ ((text_eq e.key k ≡ false) × Loads d k f)
          → ((e.key ≡ j) × (g ≡ e)) ⊎ ((text_eq e.key j ≡ false) × Loads d j g)
          → f.number ≡ g.number
          → k ≡ j
      both (inl (p, _)) (inl (q, _)) same = sym p ∙ q
      both {j} {f} {g} (inl (p, q)) (inr (_, l)) same =
          let low = below j g l in
          let at = ap (λ (r : Receipt). r.number) q in absurd (omega (arith, low, at, number, same))
      both {k} {f} {g} (inr (_, l)) (inl (p, q)) same =
          let low = below k f l in
          let at = ap (λ (r : Receipt). r.number) q in absurd (omega (arith, low, at, number, same))
      both {k} {j} {f} {g} (inr (_, l)) (inr (_, h)) same = c.unique k j f g l h same

module _ {first next : ℕ} {runs : List ℕ} (d : ReceiptDir) where
  -- The store moves past a number that is held.
  pub moved-Core :
      (k : Text) (e : Receipt)
      → Loads d k e
      → e.number ≡ next
      → Core first d next runs
      → Core first d (next + 1) runs
  moved-Core k e l number c = record {
    seeded = c.seeded;
    not_below = let low = c.not_below in omega (arith, low);
    held = λ m low high. elim (Bool-cases (m == next)) [
      | inl same ↦ record {
        key = k;
        entry = e;
        loads = l;
        number = number ∙ sym ((==_iff m next).0 same);
      }
      | inr differ ↦ c.held m low (let ne = (==_iff m next).1 in let below = high in ground arith)
    ];
    in_range = λ j f g. let (low, high) = c.in_range j f g in (low, omega (arith, high));
    unique = c.unique;
    visible = c.visible;
    unrun = c.unrun;
    spent = c.spent;
    once = c.once;
  }

  -- The importer is started for a receipt that has not been imported.
  pub run-Core :
      (k : Text) (e : Receipt)
      → Loads d k e
      → e.import_state ≡ not_run
      → Core first d next runs
      → All (λ n. e.number ≢ n) runs
  run-Core k e l unrun c =
      All-map {Q = λ n. e.number ≢ n}
        (λ n (s : IsSpent d n) same.
          let at = c.unique k s.key e s.entry l s.loads (same ∙ sym s.number) in
          let it : e ≡ s.entry =
            loads_one d s.key e s.entry (subst (λ t. Loads d t e) at l) s.loads in
          s.has_run (ap (λ (r : Receipt). r.import_state) (sym it) ∙ unrun))
        runs c.spent
