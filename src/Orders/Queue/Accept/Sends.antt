-- ===== src/Orders/Queue/Accept/Sends.antt =====
-- internal/erp/hasavshevet/queue.go: the two kinds of effect that Accept with the key index can have on
-- the index, the channel and the highest number, and those of a reservation and of a queueing again.
use digi_erp_connector.Base.{
  if_both, if_split, ℕ, ◌≤◌, ◌<◌, ◌≡◌, refl, sym, ap, subst, ◌∙◌, ◌⊎◌, inl, inr, arith, Text,
  text_eq, is_empty, Bool, true, false, none, some, [], ◌∷◌, ◌++◌, if◌then◌else◌, leb, Outcome, ok,
  err, Bool-cases, List, length,
}
use digi_erp_connector.Base.Decimal.{format}
use digi_erp_connector.Base.Int.{pos}
use digi_erp_connector.Orders.Types.{queued, Error, Entry, OrderRequest, reserved, retryable}
use digi_erp_connector.Orders.Counter.{CounterFile, advance_past}
use digi_erp_connector.Orders.Index.{IndexDir, load_stem, save}
use digi_erp_connector.Orders.Index.Laws.{IsEntry, load_stem-save}
use digi_erp_connector.Orders.Queue.State.{
  Queue, Setup, Io, Job, Acceptance, is_full, enqueue, set_status, default_queue_size,
}
use digi_erp_connector.Orders.Queue.Recover.Bounds.{Loads, Bounded, Keeps, Keeps-refl}
use digi_erp_connector.Orders.Queue.Accept.{
  requeue_conflict, reserve, requeue_checked, send, reply, new_entry, requeued_entry,
}

module _ {F : Type 0} (setup : Setup F) where
  -- A new number is above every readable entry's, and the key had no entry; a number queued
  -- again is the one that the key's retryable entry holds.
  pub data Origin (q : Queue F) (e : Entry) : Type 0 where
    fresh :
        load_stem setup.stem q.disk.index (setup.stem e.key) ≡ ok none
        → ((s : Text) (f : Entry) → Loads setup q.disk.index s f → f.number < e.number)
        → Origin q e
    again :
        (old : Entry)
        → Loads setup q.disk.index (setup.stem e.key) old
        → old.state ≡ retryable
        → old.number ≡ e.number
        → Origin q e

  -- A step that queues the job of a request, whose entry it saved as reserved.
  pub record Sends (req : OrderRequest F) (q q' : Queue F) : Type 0 where
    pub job : Job F
    pub entry : Entry
    pub ch : q'.ch ≡ q.ch ++ (job ∷ [])
    pub room : is_full q ≡ false
    pub request : job.req ≡ req
    pub key : entry.key ≡ req.history_id
    pub request_hash : entry.request_hash ≡ setup.request_hash req
    pub job_id : job.id ≡ format entry.number
    pub job_entry : job.entry ≡ some entry
    pub job_number : job.order_number ≡ pos entry.number
    pub valid : IsEntry entry
    pub state : entry.state ≡ reserved
    pub loads :
        (s : Text)
        → load_stem setup.stem q'.disk.index s ≡ (
            if text_eq (setup.stem entry.key) s
            then ok (some entry)
            else load_stem setup.stem q.disk.index s)
    pub indexed : q'.indexed ≡ q.indexed
    pub bounded : Bounded setup q → Bounded setup q'
    pub origin : Origin q entry

  abbrev pub Effect : OrderRequest F → Queue F → Queue F → Type 0
  Effect req q q' = Keeps setup q q' ⊎ Sends req q q'

  abbrev sent : Queue F → Job F → Queue F
  sent q job = record (set_status q job.id queued job.order_number [] none) {
    ch = q.ch ++ (job ∷ []);
  }

  enqueue_room :
      (q : Queue F) (job : Job F)
      → is_full q ≡ false
      → enqueue q job
        ≡ (sent q job, ok (record { job_id = job.id; status = queued; replay = false }))
  unfolding enqueue
  enqueue_room q job room = rw (room, enqueue)

  send_room :
      (q : Queue F) (io : Io) (job : Job F) (replayed : Bool)
      → is_full q ≡ false
      → send setup q io job replayed
        ≡ (sent q job, ok (record { job_id = job.id; status = queued; replay = replayed }))
  unfolding send
  send_room q io job replayed room = ap (reply setup io job replayed) (enqueue_room q job room)

  -- A queue with a saved entry, sending its job.
  send-Sends :
      (q after : Queue F) (io : Io) (job : Job F) (replayed : Bool) (e : Entry)
      → e.key ≡ job.req.history_id
      → e.request_hash ≡ setup.request_hash job.req
      → job.id ≡ format e.number
      → is_full after ≡ false
      → after.ch ≡ q.ch
      → after.indexed ≡ q.indexed
      → job.entry ≡ some e
      → job.order_number ≡ pos e.number
      → IsEntry e
      → e.state ≡ reserved
      → ((s : Text)
          → load_stem setup.stem after.disk.index s ≡ (
              if text_eq (setup.stem e.key) s
              then ok (some e)
              else load_stem setup.stem q.disk.index s))
      → (Bounded setup q → Bounded setup after)
      → Origin q e
      → Sends job.req q (send setup after io job replayed).0
  send-Sends q after io job replayed e key hash id room same_ch same_indexed has num valid state law
        bound origin =
      rw (send_room after io job replayed room) (
        unfold set_status in
        record {
          job = job;
          entry = e;
          ch = ap (λ c. c ++ (job ∷ [])) same_ch;
          room =
              subst (λ (c : List (Job F)). leb default_queue_size (length c) ≡ false) same_ch room;
          request = refl;
          key = key;
          request_hash = hash;
          job_id = id;
          job_entry = has;
          job_number = num;
          valid = valid;
          state = state;
          loads = law;
          indexed = same_indexed;
          bounded = bound;
          origin = origin;
        })

  -- The bound over a saved entry and the others.
  pub bounded_by_saved :
      (d d' : IndexDir) (e : Entry) (highest : ℕ)
      → ((s : Text)
          → load_stem setup.stem d' s
            ≡ (if text_eq (setup.stem e.key) s then ok (some e) else load_stem setup.stem d s))
      → e.number ≤ highest
      → ((s : Text) (f : Entry) → Loads setup d s f → f.number ≤ highest)
      → (s : Text) (f : Entry) → Loads setup d' s f
      → f.number ≤ highest
  bounded_by_saved d d' e highest law own others s f l =
      elim (Bool-cases (text_eq (setup.stem e.key) s)) [
        | inl same ↦ ground (arith, law s)
        | inr differ ↦ others s f (ground (arith, law s))
      ]

  pub reserve-Effect :
      (q : Queue F) (io : Io) (req : OrderRequest F) (n : ℕ)
      → is_full q ≡ false
      → is_empty req.history_id ≡ false
      → load_stem setup.stem q.disk.index (setup.stem req.history_id) ≡ ok none
      → q.recovered ≡ true
      → q.highest < n
      → Bounded setup q
      → Effect req q (reserve setup q io req n).0
  reserve-Effect q io req n room key new rec above b =
      elim (load_stem-save setup.stem q.disk.index io.saves e v) [
        | inr refused ↦ inl (unfold reserve in rw (refused, reserve) (Keeps-refl setup q))
        | inl (done, law) ↦ inr (
            unfold reserve in
            rw (done, reserve)
              (send-Sends q after io job false e refl refl refl room refl refl refl refl v refl law
                (λ _ r.
                  bounded_by_saved q.disk.index after.disk.index e n law (ground arith)
                    (λ s f l. let low : f.number ≤ q.highest = b rec s f l in omega arith))
                (fresh new (λ s f l. let low : f.number ≤ q.highest = b rec s f l in omega arith))))
      ]
    where
      e : Entry
      e = new_entry setup io req n

      v : IsEntry e
      v = record { has_key = key; positive = omega arith }

      advanced : CounterFile × Outcome Error (Unit {0})
      advanced = advance_past q.disk.counter io.counter_writes n

      after : Queue F
      after = record q {
        disk = record (q.disk) {
          index = (save setup.stem q.disk.index io.saves e).0;
          counter = advanced.0;
        };
        by_number = (n, setup.stem req.history_id) ∷ q.by_number;
        highest = n;
        recovered = elim (advanced.1) [ ok _ ↦ q.recovered | err _ ↦ false ];
      }

      job : Job F
      job = record { id = format n; order_number = pos n; req = req; entry = some e }

  pub requeue_checked-Effect :
      (q : Queue F) (io : Io) (e : Entry) (req : OrderRequest F)
      → IsEntry e
      → e.state ≡ retryable
      → Loads setup q.disk.index (setup.stem e.key) e
      → e.key ≡ req.history_id
      → Effect req q (requeue_checked setup q io e req).0
  requeue_checked-Effect q io e req v retry l own =
      unfold requeue_checked in
      if_both P (requeue_conflict setup q e) (inl (Keeps-refl setup q))
        (if_split P (is_full q) (λ full. inl (Keeps-refl setup q)) queued_again)
    where
      P : Queue F × Outcome Error Acceptance → Type 0
      P r = Effect req q r.0

      e' : Entry
      e' = requeued_entry setup e req

      v' : IsEntry e'
      v' = record { has_key = v.has_key; positive = v.positive }

      after : Queue F
      after = record q {
        disk = record (q.disk) { index = (save setup.stem q.disk.index io.saves e').0 };
        by_number = (e.number, setup.stem e.key) ∷ q.by_number;
      }

      job : Job F
      job = record { id = format e.number; order_number = pos e.number; req = req; entry = some e' }

      answer : Outcome Error (Unit {0}) → Queue F × Outcome Error Acceptance
      answer saved = elim saved [ err x ↦ (q, err x) | ok _ ↦ send setup after io job true ]

      queued_again : is_full q ≡ false → P (answer (save setup.stem q.disk.index io.saves e').1)
      queued_again room = elim (load_stem-save setup.stem q.disk.index io.saves e' v') [
        | inr refused ↦ rw refused (inl (Keeps-refl setup q))
        | inl (done, law) ↦ rw done (
            inr (
              send-Sends q after io job true e' own refl refl room refl refl refl refl v' refl law
                (λ b r.
                  bounded_by_saved q.disk.index after.disk.index e' q.highest law
                    (b r (setup.stem e.key) e l) (b r))
                (again e l retry refl)))
      ]

  -- An effect after a recovery is an effect.
  pub Keeps-Effect :
      {req : OrderRequest F} {q q' q'' : Queue F}
      → Keeps setup q q'
      → Effect req q' q''
      → Effect req q q''
  Keeps-Effect {req} {q} {q'} {q''} k (inl k') = inl (record {
    index = k'.index ∙ k.index;
    ch = k'.ch ∙ k.ch;
    indexed = k'.indexed ∙ k.indexed;
    bounded = λ b. k'.bounded (k.bounded b);
  })
  Keeps-Effect {req} {q} {q'} {q''} k (inr t) = inr (record {
    job = t.job;
    entry = t.entry;
    ch = t.ch ∙ ap (λ c. c ++ (t.job ∷ [])) k.ch;
    room = subst (λ (c : List (Job F)). leb default_queue_size (length c) ≡ false) k.ch t.room;
    request = t.request;
    key = t.key;
    request_hash = t.request_hash;
    job_id = t.job_id;
    job_entry = t.job_entry;
    job_number = t.job_number;
    valid = t.valid;
    state = t.state;
    loads = λ s. rw (← k.index) (t.loads s);
    indexed = t.indexed ∙ k.indexed;
    bounded = λ b. t.bounded (k.bounded b);
    origin = origin t.origin;
  })
    where
      origin : Origin q' t.entry → Origin q t.entry
      origin (fresh none_there above) =
          fresh
            (subst (λ d. load_stem setup.stem d (setup.stem t.entry.key) ≡ ok none) k.index
              none_there)
            (λ s f l. above s f (subst (λ d. Loads setup d s f) (sym k.index) l))
      origin (again old l r n) =
          again old (subst (λ d. Loads setup d (setup.stem t.entry.key) old) k.index l) r n
