-- ===== src/Orders/Queue/Once.antt =====
-- internal/erp/hasavshevet/queue.go: why no order's files are opened twice. The part of the
-- invariant that speaks of the index, the jobs on their way and the numbers opened; its children
-- carry it through the steps.
pub mod Preserve
pub mod Recording
pub mod Worked
pub mod Reachable
use digi_erp_connector.Base.{
  ℕ, ◌<◌, ◌≡◌, ◌≢◌, refl, sym, ap, subst, ◌∙◌, ◌⊎◌, inl, inr, arith, Text, text_eq, text_eq_sound,
  text_eq_refl, Bool, true, false, Option, none, some, List, [], ◌∷◌, ◌++◌, if◌then◌else◌, Outcome,
  ok, err, All, All-map, All-append, Pairwise, Bool-cases,
}
use digi_erp_connector.Base.Int.{ℤ, pos}
use digi_erp_connector.Orders.Types.{Error, Entry, OrderState, reserved, retryable}
use digi_erp_connector.Orders.Index.{IndexDir, load_stem}
use digi_erp_connector.Orders.Index.Laws.{IsEntry}
use digi_erp_connector.Orders.Queue.State.{Setup, Job}
use digi_erp_connector.Orders.Queue.Recover.Bounds.{Loads}
use digi_erp_connector.Orders.Queue.Steps.{note_opened}

module _ {F : Type 0} (setup : Setup F) where
  -- The job's entry is on disk, reserved, and holds the job's number.
  pub record IsSaved (d : IndexDir) (job : Job F) : Type 0 where
    pub entry : Entry
    pub job_entry : job.entry ≡ some entry
    pub job_number : job.order_number ≡ pos entry.number
    pub valid : IsEntry entry
    pub state : entry.state ≡ reserved
    pub loads : Loads setup d (setup.stem entry.key) entry

  -- Two jobs have entries in two files.
  abbrev pub Apart : Job F → Job F → Type 0
  Apart a b =
      (e f : Entry)
      → a.entry ≡ some e
      → b.entry ≡ some f
      → text_eq (setup.stem e.key) (setup.stem f.key) ≡ false

  -- No two readable entries hold one number.
  abbrev pub IsUnique : IndexDir → Type 0
  IsUnique d =
      (s t : Text) (e f : Entry)
      → Loads setup d s e
      → Loads setup d t f
      → e.number ≡ f.number
      → s ≡ t

  -- `d'` is `d` with the entry `e` saved.
  abbrev pub IsSave : IndexDir → IndexDir → Entry → Type 0
  IsSave d d' e =
      (s : Text)
      → load_stem setup.stem d' s
        ≡ (if text_eq (setup.stem e.key) s then ok (some e) else load_stem setup.stem d s)

  -- An opened number belongs to an entry that is not retryable.
  pub record IsOwned (d : IndexDir) (n : ℤ) : Type 0 where
    pub at : Text
    pub entry : Entry
    pub loads : Loads setup d at entry
    pub number : n ≡ pos entry.number
    pub state : entry.state ≢ retryable

  pub record Core (d : IndexDir) (live : List (Job F)) (opened : List ℤ) : Type 0 where
    pub saved : All (IsSaved d) live
    pub apart : Pairwise Apart live
    pub unique : IsUnique d
    pub owned : All (IsOwned d) opened
    pub spent : All (λ n. All (λ (j : Job F). j.order_number ≢ n) live) opened
    pub once : Pairwise (λ (m n : ℤ). m ≢ n) opened

  save_here : (d d' : IndexDir) (e : Entry) → IsSave d d' e → Loads setup d' (setup.stem e.key) e
  save_here d d' e law = ground (arith, law (setup.stem e.key), text_eq_refl (setup.stem e.key))

  save_there :
      (d d' : IndexDir) (e : Entry) (s : Text)
      → IsSave d d' e
      → text_eq (setup.stem e.key) s ≡ false
      → load_stem setup.stem d' s ≡ load_stem setup.stem d s
  save_there d d' e s law h = ground (arith, law s)

  -- What loads after a save is the saved entry or was there before.
  save_cases :
      (d d' : IndexDir) (e : Entry) (s : Text) (f : Entry)
      → IsSave d d' e
      → Loads setup d' s f
      → ((setup.stem e.key ≡ s) × (f ≡ e))
        ⊎ ((text_eq (setup.stem e.key) s ≡ false) × Loads setup d s f)
  save_cases d d' e s f law l = elim (Bool-cases (text_eq (setup.stem e.key) s)) [
    | inl same ↦ inl (text_eq_sound _ _ same, ground (arith, law s))
    | inr differ ↦ inr (differ, sym (save_there d d' e s law differ) ∙ l)
  ]

  save-IsUnique :
      (d d' : IndexDir) (e : Entry)
      → IsSave d d' e
      → IsUnique d
      → ((s : Text) (f : Entry)
          → text_eq (setup.stem e.key) s ≡ false
          → Loads setup d s f
          → f.number ≢ e.number)
      → IsUnique d'
  save-IsUnique d d' e law u new s t f g lf lg n =
      both (save_cases d d' e s f law lf) (save_cases d d' e t g law lg)
    where
      both :
          ((setup.stem e.key ≡ s) × (f ≡ e))
            ⊎ ((text_eq (setup.stem e.key) s ≡ false) × Loads setup d s f)
          → ((setup.stem e.key ≡ t) × (g ≡ e))
            ⊎ ((text_eq (setup.stem e.key) t ≡ false) × Loads setup d t g)
          → s ≡ t
      both (inl (p, _)) (inl (q, _)) = sym p ∙ q
      both (inl (p, q)) (inr (differ, l)) =
          absurd (new t g differ l (sym n ∙ ap (λ (x : Entry). x.number) q))
      both (inr (differ, l)) (inl (p, q)) =
          absurd (new s f differ l (n ∙ ap (λ (x : Entry). x.number) q))
      both (inr (_, l)) (inr (_, m)) = u s t f g l m n

  save-IsSaved :
      (d d' : IndexDir) (e : Entry) (job : Job F) (saved : IsSaved d job)
      → IsSave d d' e
      → text_eq (setup.stem e.key) (setup.stem saved.entry.key) ≡ false
      → IsSaved d' job
  save-IsSaved d d' e job saved law differ = record {
    entry = saved.entry;
    job_entry = saved.job_entry;
    job_number = saved.job_number;
    valid = saved.valid;
    state = saved.state;
    loads = save_there d d' e (setup.stem saved.entry.key) law differ ∙ saved.loads;
  }

  save-IsOwned :
      (d d' : IndexDir) (e : Entry) (n : ℤ)
      → IsSave d d' e
      → ((f : Entry) → Loads setup d (setup.stem e.key) f → f.number ≡ e.number)
      → (n ≡ pos e.number → e.state ≢ retryable)
      → IsOwned d n
      → IsOwned d' n
  save-IsOwned d d' e n law same keeps o = elim (Bool-cases (text_eq (setup.stem e.key) o.at)) [
    | inl here ↦
        let at = text_eq_sound _ _ here in
        let num =
          o.number
          ∙ ap pos (same o.entry (subst (λ s. Loads setup d s o.entry) (sym at) o.loads)) in
        record {
          at = setup.stem e.key;
          entry = e;
          loads = save_here d d' e law;
          number = num;
          state = keeps num;
        }
    | inr differ ↦ record {
      at = o.at;
      entry = o.entry;
      loads = save_there d d' e o.at law differ ∙ o.loads;
      number = o.number;
      state = o.state;
    }
  ]
