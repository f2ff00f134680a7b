-- ===== src/Orders/Queue/Once/Recording.antt =====
-- internal/erp/hasavshevet/queue.go, recordOutcome: what the worker's record of a job leaves.
use digi_erp_connector.Base.{
  if_both, if_split, ◌≤◌, ◌≡◌, ◌≢◌, refl, sym, ap, subst, ◌∙◌, inl, inr, Text, text_eq,
  text_eq_sound, Bool, true, false, Option, none, some, Bool-cases,
}
use digi_erp_connector.Orders.Types.{Entry, retryable}
use digi_erp_connector.Orders.Index.{IndexDir, save}
use digi_erp_connector.Orders.Index.Laws.{IsEntry, load_stem-save}
use digi_erp_connector.Orders.Queue.State.{Setup, Job, Queue}
use digi_erp_connector.Orders.Queue.Worker.{
  Processed, wrote, stopped, with_outcome, record_entry, record_outcome,
}
use digi_erp_connector.Orders.Queue.Recover.Bounds.{Loads, Bounded}
use digi_erp_connector.Orders.Queue.Accept.Sends.{bounded_by_saved}
use digi_erp_connector.Orders.Queue.Once.{IsSaved, IsSave}

-- A sender's return: it marks an error as not written only if it opened no order file.
abbrev pub IsHonest : Bool → Processed → Type 0
IsHonest opened (wrote n files) = Unit
IsHonest opened (stopped f) = f.not_written ≡ true → opened ≡ false

-- A job of which a file was opened is never recorded as retryable.
outcome_state :
    (e : Entry) (p : Processed) (now : Text) (flag : Bool)
    → IsHonest flag p
    → flag ≡ true
    → (with_outcome e p now).state ≢ retryable
unfolding with_outcome
outcome_state e (wrote n files) now flag h t = λ q. cc
outcome_state e (stopped f) now flag h t = elim (Bool-cases f.not_written) [
  | inl marked ↦ λ q. cc (h marked, t)
  | inr unmarked ↦ rw unmarked (λ q. cc)
]

outcome_key :
    (e : Entry) (p : Processed) (now : Text)
    → ((with_outcome e p now).key ≡ e.key) × ((with_outcome e p now).number ≡ e.number)
unfolding with_outcome
outcome_key e (wrote n files) now = (refl, refl)
outcome_key e (stopped f) now = (refl, refl)

module _ {F : Type 0} (setup : Setup F) where
  pub record Recorded (q q' : Queue F) (old : Entry) (flag : Bool) : Type 0 where
    pub entry : Entry
    pub same : (entry.key ≡ old.key) × (entry.number ≡ old.number)
    pub law : IsSave setup q.disk.index q'.disk.index entry
    pub honest : flag ≡ true → entry.state ≢ retryable
    pub ch : q'.ch ≡ q.ch
    pub indexed : q'.indexed ≡ q.indexed
    pub recovered : q'.recovered ≡ q.recovered
    pub highest : q'.highest ≡ q.highest

  pub IsSave-nothing :
      (d : IndexDir) (e : Entry) → Loads setup d (setup.stem e.key) e → IsSave setup d d e
  IsSave-nothing d e l s = elim (Bool-cases (text_eq (setup.stem e.key) s)) [
    | inl same ↦ rw same (subst (λ t. Loads setup d t e) (text_eq_sound _ _ same) l)
    | inr differ ↦ rw differ refl
  ]

  record_entry-some :
      (q : Queue F) (saves : Bool) (now : Text) (e : Entry) (p : Processed)
      → q.indexed ≡ true
      → record_entry setup q saves now (some e) p ≡ record q {
        disk = record (q.disk) {
          index = (save setup.stem q.disk.index saves (with_outcome e p now)).0;
        };
      }
  unfolding record_entry
  record_entry-some q saves now e p indexed =
      if_split
        (λ (r : Queue F). r ≡ record q {
          disk = record (q.disk) {
            index = (save setup.stem q.disk.index saves (with_outcome e p now)).0;
          };
        })
        q.indexed (λ _. refl) (λ off. absurd (cc))

  pub record_outcome-Recorded :
      (q : Queue F) (saves : Bool) (now : Text) (job : Job F) (p : Processed) (flag : Bool)
      → (s : IsSaved setup q.disk.index job) → q.indexed ≡ true
      → IsHonest flag p
      → Recorded q (record_outcome setup q saves now job p) s.entry flag
  record_outcome-Recorded q saves now job p flag s indexed h =
      elim (load_stem-save setup.stem q.disk.index saves new valid) [
        | inl (done, law) ↦ rw step (record {
          entry = new;
          same = outcome_key s.entry p now;
          law = law;
          honest = outcome_state s.entry p now flag h;
          ch = refl;
          indexed = refl;
          recovered = refl;
          highest = refl;
        })
        | inr refused ↦
            rw (step, refused)
              (record {
                entry = s.entry;
                same = (refl, refl);
                law = IsSave-nothing q.disk.index s.entry s.loads;
                honest = λ t r. cc (s.state, r);
                ch = refl;
                indexed = refl;
                recovered = refl;
                highest = refl;
              })
      ]
    where
      new : Entry
      new = with_outcome s.entry p now

      valid : IsEntry new
      valid =
          let (k, n) = outcome_key s.entry p now in
          record { has_key = rw k s.valid.has_key; positive = rw n s.valid.positive }

      step : record_outcome setup q saves now job p ≡ record q {
        disk = record (q.disk) { index = (save setup.stem q.disk.index saves new).0 };
      }
      step =
          unfold record_outcome in
          ap (λ o. record_entry setup q saves now o p) s.job_entry
          ∙ record_entry-some q saves now s.entry p indexed

  -- The bound stays, since the number on disk stays.
  pub Recorded-Bounded :
      (q q' : Queue F) (old : Entry) (flag : Bool)
      → Recorded q q' old flag
      → Loads setup q.disk.index (setup.stem old.key) old
      → Bounded setup q
      → Bounded setup q'
  Recorded-Bounded q q' old flag r l b rec =
      let b' = b (sym r.recovered ∙ rec) in
      rw r.highest (
        bounded_by_saved setup q.disk.index q'.disk.index r.entry q.highest r.law
          (let low : old.number ≤ q.highest = b' (setup.stem old.key) old l in rw (r.same.1) low)
          b')

  pub record_outcome-ch :
      (q : Queue F) (saves : Bool) (now : Text) (job : Job F) (p : Processed)
      → (record_outcome setup q saves now job p).ch ≡ q.ch
  unfolding record_outcome
  record_outcome-ch q saves now job p = go job.entry
    where
      go : (o : Option Entry) → (record_entry setup q saves now o p).ch ≡ q.ch
      go none = unfold record_entry in refl
      go (some e) =
          unfold record_entry in if_both (λ (r : Queue F). r.ch ≡ q.ch) q.indexed refl refl
