-- ===== src/Orders/Queue/Once/Preserve.antt =====
-- internal/erp/hasavshevet/queue.go: a job that is queued, and a job that ends, keep the invariant
-- of Once.
use digi_erp_connector.Base.{
  ◌<◌, ◌≡◌, ◌≢◌, refl, sym, ap, subst, ◌∙◌, inl, inr, arith, Text, text_eq, text_eq_sound,
  text_eq_refl, Bool, true, false, none, some, List, [], ◌∷◌, ◌++◌, ok, All, All-map, All-map₂,
  text_eq_swap, All-append, Pairwise, Bool-cases,
}
use digi_erp_connector.Base.Int.{ℤ, pos}
use digi_erp_connector.Orders.Types.{Entry, reserved, retryable}
use digi_erp_connector.Orders.Index.{IndexDir, load_stem}
use digi_erp_connector.Orders.Index.Laws.{IsEntry}
use digi_erp_connector.Orders.Queue.State.{Setup, Job}
use digi_erp_connector.Orders.Queue.Recover.Bounds.{Loads}
use digi_erp_connector.Orders.Queue.Steps.{note_opened}
use digi_erp_connector.Orders.Queue.Once.{
  IsSaved, Apart, IsUnique, IsSave, IsOwned, Core, save_here, save-IsUnique, save-IsSaved,
  save-IsOwned,
}

module _ {ℓ κ} {A : Type ℓ} (R : A → A → Type κ) where
  pub Pairwise-append_one :
      (xs : List A) (y : A) → Pairwise R xs → All (λ x. R x y) xs → Pairwise R (xs ++ (y ∷ []))
  Pairwise-append_one [] y p a = (tt, tt)
  Pairwise-append_one (x ∷ xs) y p a =
      (All-append (R x) xs (y ∷ []) p.0 (a.0, tt), Pairwise-append_one xs y p.1 a.1)

pub same_some : {e f : Entry} → some e ≡ some f → e ≡ f
same_some h = cc

pub not_reserved : (e f : Entry) → e ≡ f → e.state ≡ reserved → f.state ≡ retryable → ⊥
not_reserved e f p r t = ground arith

module _ {F : Type 0} (setup : Setup F) where
  abbrev stem_of : Entry → Text
  stem_of e = setup.stem e.key

  -- The entry is a key's first, above every number on disk, or takes a retryable entry's place.
  pub data IsNext (d : IndexDir) (e : Entry) : Type 0 where
    first :
        load_stem setup.stem d (setup.stem e.key) ≡ ok none
        → ((s : Text) (f : Entry) → Loads setup d s f → f.number < e.number)
        → IsNext d e
    again :
        (old : Entry)
        → Loads setup d (setup.stem e.key) old
        → old.state ≡ retryable
        → old.number ≡ e.number
        → IsNext d e

  same_entry :
      (d : IndexDir) (s : Text) (e f : Entry) → Loads setup d s e → Loads setup d s f → e ≡ f
  same_entry d s e f p q = cc

  next_apart :
      (d : IndexDir) (e : Entry) (job : Job F) (saved : IsSaved setup d job)
      → IsNext d e
      → text_eq (stem_of e) (stem_of saved.entry) ≡ false
  next_apart d e job saved n = elim (Bool-cases (text_eq (stem_of e) (stem_of saved.entry))) [
    | inr differ ↦ differ
    | inl same ↦ absurd (
        clash n
          (subst (λ s. Loads setup d s saved.entry) (sym (text_eq_sound _ _ same)) saved.loads))
  ]
    where
      clash : IsNext d e → Loads setup d (stem_of e) saved.entry → ⊥
      clash (first nothing above) l = cc
      clash (again old at r num) l =
          not_reserved saved.entry old (same_entry d (stem_of e) saved.entry old l at) saved.state r

  next_number :
      (d : IndexDir) (e : Entry)
      → IsUnique setup d
      → IsNext d e
      → (s : Text) (f : Entry) → text_eq (stem_of e) s ≡ false
      → Loads setup d s f
      → f.number ≢ e.number
  next_number d e u (first nothing above) s f differ l = λ q. let lt = above s f l in omega arith
  next_number d e u (again old at r num) s f differ l = λ q.
      let p = u (stem_of e) s old f at l (num ∙ sym q) in
      absurd (
        let h : text_eq s s ≡ false = subst (λ t. text_eq t s ≡ false) p differ in
        cc (h, text_eq_refl s))

  next_unspent :
      (d : IndexDir) (e : Entry) (n : ℤ)
      → IsUnique setup d
      → IsNext d e
      → IsOwned setup d n
      → pos e.number ≢ n
  next_unspent d e n u (first nothing above) o = λ q.
      let lt = above o.at o.entry o.loads in
      let p : pos e.number ≡ pos o.entry.number = q ∙ o.number in ground arith
  next_unspent d e n u (again old at r num) o = λ q.
      let p : pos e.number ≡ pos o.entry.number = q ∙ o.number in
      let p' : old.number ≡ o.entry.number = ground arith in
      let s = u (stem_of e) o.at old o.entry at o.loads p' in
      let f = same_entry d o.at old o.entry (subst (λ t. Loads setup d t old) s at) o.loads in
      o.state (ap (λ (x : Entry). x.state) (sym f) ∙ r)

  next_holder :
      (d : IndexDir) (e f : Entry) → IsNext d e → Loads setup d (stem_of e) f → f.number ≡ e.number
  next_holder d e f (first nothing above) l = absurd (cc)
  next_holder d e f (again old at r num) l =
      ap (λ (x : Entry). x.number) (same_entry d (stem_of e) f old l at) ∙ num

  -- A job is queued behind the others and its entry is saved as reserved.
  pub send-Core :
      (d d' : IndexDir) (live : List (Job F)) (opened : List ℤ) (job : Job F) (e : Entry)
      → Core setup d live opened
      → job.entry ≡ some e
      → job.order_number ≡ pos e.number
      → IsEntry e
      → e.state ≡ reserved
      → IsSave setup d d' e
      → IsNext d e
      → Core setup d' (live ++ (job ∷ [])) opened
  send-Core d d' live opened job e c has num valid state law next = record {
    saved =
        All-append (IsSaved setup d') live (job ∷ [])
          (All-map
            (λ j (s : IsSaved setup d j).
              save-IsSaved setup d d' e j s law (next_apart d e j s next))
            live c.saved)
          (
            record {
              entry = e;
              job_entry = has;
              job_number = num;
              valid = valid;
              state = state;
              loads = save_here setup d d' e law;
            },
            tt,
          );
    apart = Pairwise-append_one (Apart setup) live job c.apart (
        All-map {Q = λ j. Apart setup j job}
          (λ j (s : IsSaved setup d j) a b ha hb.
            let p : a ≡ s.entry = same_some (sym ha ∙ s.job_entry) in
            let q : b ≡ e = same_some (sym hb ∙ has) in
            rw (p, q) (text_eq_swap (stem_of e) (stem_of s.entry) (next_apart d e j s next)))
          live c.saved);
    unique = save-IsUnique setup d d' e law c.unique (next_number d e c.unique next);
    owned =
        All-map
          (λ n (o : IsOwned setup d n).
            save-IsOwned setup d d' e n law (λ f. next_holder d e f next)
              (λ _ r. not_reserved e e refl state r) o)
          opened c.owned;
    spent =
        All-map₂ {R = λ n. All (λ (j : Job F). j.order_number ≢ n) (live ++ (job ∷ []))}
          (λ n (o : IsOwned setup d n) (a : All (λ (j : Job F). j.order_number ≢ n) live).
            All-append (λ (j : Job F). j.order_number ≢ n) live (job ∷ []) a
              ((λ q. next_unspent d e n c.unique next o (sym num ∙ q)), tt))
          opened c.owned c.spent;
    once = c.once;
  }

  -- Two jobs on their way have two numbers.
  numbers-Apart :
      (d : IndexDir) (job other : Job F) (s : IsSaved setup d job) (t : IsSaved setup d other)
      → IsUnique setup d
      → Apart setup job other
      → other.order_number ≢ job.order_number
  numbers-Apart d job other s t u apart q =
      let n : pos t.entry.number ≡ pos s.entry.number = sym t.job_number ∙ q ∙ s.job_number in
      let n' : s.entry.number ≡ t.entry.number = ground arith in
      let p = u (stem_of s.entry) (stem_of t.entry) s.entry t.entry s.loads t.loads n' in
      let differ = apart s.entry t.entry s.job_entry t.job_entry in
      cc (subst (λ x. text_eq x (stem_of t.entry) ≡ false) p differ, text_eq_refl (stem_of t.entry))

  module _ (d d' : IndexDir) (rest : List (Job F)) (opened : List ℤ) (job : Job F) (e : Entry)
      (c : Core setup d (job ∷ rest) opened)
      (same : (old : Entry) → job.entry ≡ some old → (e.key ≡ old.key) × (e.number ≡ old.number))
      (law : IsSave setup d d' e) where
    at_stem : Loads setup d (stem_of e) c.saved.0.entry
    at_stem =
        subst (λ k. Loads setup d (setup.stem k) c.saved.0.entry)
          (sym (same c.saved.0.entry c.saved.0.job_entry).0) c.saved.0.loads

    held_number : c.saved.0.entry.number ≡ e.number
    held_number = sym (same c.saved.0.entry c.saved.0.job_entry).1

    job_holds : job.order_number ≡ pos e.number
    job_holds = c.saved.0.job_number ∙ ap pos held_number

    others_differ :
        (s : Text) (f : Entry)
        → text_eq (stem_of e) s ≡ false
        → Loads setup d s f
        → f.number ≢ e.number
    others_differ s f differ l q =
        let p = c.unique (stem_of e) s c.saved.0.entry f at_stem l (held_number ∙ sym q) in
        cc (subst (λ x. text_eq x s ≡ false) p differ, text_eq_refl s)

    -- The job in front ends and no file of it was opened.
    ended-Core : Core setup d' rest opened
    ended-Core = record {
      saved =
          All-map₂ {Q = Apart setup job} {R = IsSaved setup d'}
            (λ j (s : IsSaved setup d j) apart. save-IsSaved setup d d' e j s law (
              rw ((same c.saved.0.entry c.saved.0.job_entry).0)
                (apart c.saved.0.entry s.entry c.saved.0.job_entry s.job_entry)))
            rest c.saved.1 c.apart.0;
      apart = c.apart.1;
      unique = save-IsUnique setup d d' e law c.unique others_differ;
      owned =
          All-map₂ {R = IsOwned setup d'}
            (λ n (o : IsOwned setup d n) (a : All (λ (j : Job F). j.order_number ≢ n) (job ∷ rest)).
              save-IsOwned setup d d' e n law
                (λ f l.
                  ap (λ (x : Entry). x.number)
                    (same_entry d (stem_of e) f c.saved.0.entry l at_stem)
                  ∙ held_number)
                (λ q. absurd (a.0 (job_holds ∙ sym q))) o)
            opened c.owned c.spent;
      spent =
          All-map {Q = λ n. All (λ (j : Job F). j.order_number ≢ n) rest}
            (λ n (a : All (λ (j : Job F). j.order_number ≢ n) (job ∷ rest)). a.1) opened c.spent;
      once = c.once;
    }

    -- The job in front ends: its entry is saved with its key and number in a new state, which is
    -- not retryable if a file was opened.
    pub finish-Core :
        (flag : Bool)
        → (flag ≡ true → e.state ≢ retryable)
        → Core setup d' rest (note_opened flag job.order_number opened)
    finish-Core false honest = ended-Core
    finish-Core true honest = record {
      saved = ended-Core.saved;
      apart = ended-Core.apart;
      unique = ended-Core.unique;
      owned = (
        record {
          at = stem_of e;
          entry = e;
          loads = save_here setup d d' e law;
          number = job_holds;
          state = honest refl;
        },
        ended-Core.owned,
      );
      spent = (
        All-map₂ {Q = Apart setup job} {R = λ (j : Job F). j.order_number ≢ job.order_number}
            (λ j (s : IsSaved setup d j) apart. numbers-Apart d job j c.saved.0 s c.unique apart)
            rest c.saved.1 c.apart.0,
        ended-Core.spent,
      );
      once = (
        All-map {Q = λ n. job.order_number ≢ n}
            (λ n (a : All (λ (j : Job F). j.order_number ≢ n) (job ∷ rest)). a.0) opened c.spent,
        c.once,
      );
    }
