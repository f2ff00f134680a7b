-- ===== src/Receipts/Writer/Gapless/Turns.antt =====
-- internal/erp/hasavshevet/receipt_writer.go: the turns of the loop of a recovery.
use digi_erp_connector.Base.{
  arith, ℕ, ◌<◌, ◌≡◌, refl, sym, ap, subst, ◌∙◌, ◌⊎◌, inl, inr, Text, text_eq, text_eq_refl, true,
  List, [], ◌∷◌, All, All-map, Bool-cases, text_eq_sound,
}
use digi_erp_connector.Receipts.Types.{Receipt, ReceiptState, reserved, written, not_run}
use digi_erp_connector.Receipts.Index.{ReceiptDir}
use digi_erp_connector.Receipts.Index.Laws.{
  Loads, IsSave, loads_cases, loads_one, loads_here, loads_there,
}
use digi_erp_connector.Receipts.Writer.State.{ReceiptWriter}

-- A reserved entry of the key waits in the list.
unfoldable pub Pending : List Receipt → Text → Type 0
Pending [] k = ⊥
Pending (e ∷ es) k = ((e.key ≡ k) × (e.state ≡ reserved)) ⊎ Pending es k

pub written_or_reserved : (s : ReceiptState) → (s ≡ written) ⊎ (s ≡ reserved)
written_or_reserved written = inl refl
written_or_reserved reserved = inr refl

pub Pending-all : (es : List Receipt) → All (λ e. (e.state ≡ written) ⊎ Pending es e.key) es
unfolding Pending
Pending-all [] = tt
Pending-all (e ∷ es) = (
  elim (written_or_reserved e.state) [ inl w ↦ inl w | inr r ↦ inr (inl (refl, r)) ],
  All-map (λ f h. elim h [ inl w ↦ inl w | inr p ↦ inr (inr p) ]) es (Pending-all es),
)

-- Where the loop stands: `d` is the index at its start, and `es` the entries that are left.
pub record Turn (d : ReceiptDir) (next : ℕ) (es : List Receipt) (w : ReceiptWriter) : Type 0 where
  pub left : All (λ e. Loads d e.key e × (e.state ≡ reserved → e.import_state ≡ not_run)) es
  pub now :
      (k : Text) (e : Receipt)
      → Loads d k e
      → (f : Receipt) × Loads w.disk.index k f
        × (f.number ≡ e.number)
        × (e.import_state ≡ not_run → f.import_state ≡ not_run)
  pub below : (k : Text) (f : Receipt) → Loads w.disk.index k f → f.number < next
  pub pending :
      (k : Text) (f : Receipt) → Loads w.disk.index k f → (f.state ≡ written) ⊎ Pending es k

module _ (d : ReceiptDir) where
  -- The turn after an entry is completed.
  pub completed-Turn :
      {next : ℕ} (e : Receipt) (es : List Receipt) (w w' : ReceiptWriter) (e' : Receipt)
      → Turn d next (e ∷ es) w
      → e.state ≡ reserved
      → IsSave w.disk.index w'.disk.index e'
      → (e'.key ≡ e.key)
        × (e'.number ≡ e.number)
        × (e'.import_state ≡ e.import_state)
        × (e'.state ≡ written)
      → Turn d next es w'
  unfolding Pending
  completed-Turn e es w w' e' t res law (key, number, run, st) = record {
    left = t.left.1;
    now = λ k e₀ l. elim (Bool-cases (text_eq e'.key k)) [
      | inl same ↦
          let at : e'.key ≡ k = text_eq_sound _ _ same in
          let it : e₀ ≡ e =
            loads_one d k e₀ e l (subst (λ x. Loads d x e) (sym key ∙ at) (t.left.0.0)) in
          (
            e',
            subst (λ x. Loads w'.disk.index x e') at (loads_here w.disk.index w'.disk.index e' law),
            number ∙ ap (λ (x : Receipt). x.number) (sym it),
            (λ _. run ∙ t.left.0.1 res),
          )
      | inr differ ↦
          let (f, g, n, u) = t.now k e₀ l in
          (f, loads_there w.disk.index w'.disk.index e' k f law differ g, n, u)
    ];
    below = λ k f l. elim (loads_cases w.disk.index w'.disk.index e' k f law l) [
      | inl (here, same) ↦
          let (g, h, n, _) = t.now e.key e (t.left.0.0) in
          let low = t.below e.key g h in
          let eq = ap (λ (x : Receipt). x.number) same in omega (arith, low, eq, n, number)
      | inr (_, there) ↦ t.below k f there
    ];
    pending = λ k f l. elim (loads_cases w.disk.index w'.disk.index e' k f law l) [
      | inl (here, same) ↦ inl (ap (λ (x : Receipt). x.state) same ∙ st)
      | inr (differ, there) ↦ elim (t.pending k f there) [
        | inl w ↦ inl w
        | inr (inl (at, _)) ↦
            let clash : text_eq e'.key k ≡ true =
              subst (λ x. text_eq e'.key x ≡ true) (key ∙ at) (text_eq_refl e'.key) in
            absurd (cc (clash, differ))
        | inr (inr p) ↦ inr p
      ]
    ];
  }

  -- A written entry is passed over.
  pub skipped-Turn :
      {next : ℕ} (e : Receipt) (es : List Receipt) (w : ReceiptWriter)
      → Turn d next (e ∷ es) w
      → e.state ≡ written
      → Turn d next es w
  unfolding Pending
  skipped-Turn e es w t st = record {
    left = t.left.1;
    now = t.now;
    below = t.below;
    pending = λ k f l. elim (t.pending k f l) [
      | inl w ↦ inl w
      | inr (inl (_, res)) ↦ absurd (cc (st, res))
      | inr (inr p) ↦ inr p
    ];
  }
