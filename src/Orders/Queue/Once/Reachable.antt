-- ===== src/Orders/Queue/Once/Reachable.antt =====
-- internal/erp/hasavshevet/queue.go: every step of the queue, its worker and a restart keeps the
-- invariant, so in no run are one order's files opened twice or one number held by two keys.
use digi_erp_connector.Base.{
  arith, ℕ, ok, err, if_both, ◌≡◌, ◌≢◌, refl, sym, ap, subst, ◌∙◌, inl, inr, Text, Bool, true,
  Option, none, some, List, [], ◌∷◌, ◌++◌, Outcome, All, All-map,
}
use digi_erp_connector.Base.Int.{ℤ, pos}
use digi_erp_connector.Orders.Types.{OrderRequest, Error, Entry}
use digi_erp_connector.Orders.Index.{IndexDir}
use digi_erp_connector.Orders.Queue.State.{
  Setup, Job, Queue, Io, Disk, OrderFailure, new_queue, stop, set_status,
}
use digi_erp_connector.Orders.Queue.Worker.{begin_job, abandon, abandon_queued, abandon_all}
use digi_erp_connector.Orders.Sender.Outside.{Outside, SenderConfig}
use digi_erp_connector.Orders.Sender.Process.{OrderFile, OrderResult}
use digi_erp_connector.Orders.Sender.Laws.{process_order_with_number-Sound}
use digi_erp_connector.Orders.Queue.Recover.{recover}
use digi_erp_connector.Orders.Queue.Recover.Bounds.{
  Keeps, Keeps-refl, IsVisible, recover_locked-Keeps,
}
use digi_erp_connector.Orders.Queue.Accept.{accept}
use digi_erp_connector.Orders.Queue.Accept.Effects.{accept-Effect}
use digi_erp_connector.Orders.Queue.Accept.Sends.{Effect, Sends, Origin, fresh, again}
use digi_erp_connector.Orders.Queue.Steps.{
  System, Step, accepts, recovers, stops, takes, begins, finishes, abandons, abandons_queued,
  restarts, Reach, here, next, start, note_opened, opens_any, processed_of, run_job,
}
use digi_erp_connector.Orders.Queue.Once.{IsUnique, Core, IsSaved}
use digi_erp_connector.Orders.Queue.Once.Preserve.{
  IsNext, first, IsNext.again as next_again, send-Core, finish-Core, same_some, not_reserved,
}
use digi_erp_connector.Orders.Queue.Once.Recording.{IsHonest, IsSave-nothing}
use digi_erp_connector.Orders.Queue.Once.Worked.{
  on_the_way, Fine, finish-Fine, abandon-Fine, abandon-ch, abandon_all-Fine, abandon_all-ch, at_ch,
}

module _ {F : Type 0} (setup : Setup F) where
  abbrev pub Inv : System F → Type 0
  Inv s = Fine setup s.queue (on_the_way s.hand s.queue.ch) s.opened

  Keeps-Fine :
      (q q' : Queue F) (live : List (Job F)) (opened : List ℤ)
      → Keeps setup q q'
      → Fine setup q live opened
      → Fine setup q' live opened
  Keeps-Fine q q' live opened k v = record {
    indexed = k.indexed ∙ v.indexed;
    bounded = k.bounded v.bounded;
    core = subst (λ d. Core setup d live opened) (sym k.index) v.core;
  }

  Origin-IsNext : (q : Queue F) (e : Entry) → Origin setup q e → IsNext setup q.disk.index e
  Origin-IsNext q e (fresh nothing above) = first nothing above
  Origin-IsNext q e (again old at r n) = next_again old at r n

  Sends-Fine :
      (q q' : Queue F) (live : List (Job F)) (opened : List ℤ) {req : OrderRequest F}
      (t : Sends setup req q q')
      → Fine setup q live opened
      → Fine setup q' (live ++ (t.job ∷ [])) opened
  Sends-Fine q q' live opened t v = record {
    indexed = t.indexed ∙ v.indexed;
    bounded = t.bounded v.bounded;
    core =
        send-Core setup q.disk.index q'.disk.index live opened t.job t.entry v.core t.job_entry
          t.job_number t.valid t.state t.loads (Origin-IsNext q t.entry t.origin);
  }

  on_the_way-append :
      (hand : Option (Job F)) (ch : List (Job F)) (job : Job F)
      → on_the_way hand ch ++ (job ∷ []) ≡ on_the_way hand (ch ++ (job ∷ []))
  on_the_way-append none ch job = refl
  on_the_way-append (some j) ch job = refl

  Keeps-Inv :
      (q q' : Queue F) (hand : Option (Job F)) (opened : List ℤ)
      → Keeps setup q q'
      → Fine setup q (on_the_way hand q.ch) opened
      → Fine setup q' (on_the_way hand q'.ch) opened
  Keeps-Inv q q' hand opened k v =
      subst (λ c. Fine setup q' (on_the_way hand c) opened) (sym k.ch)
        (Keeps-Fine q q' (on_the_way hand q.ch) opened k v)

  Effect-Inv :
      (q q' : Queue F) (hand : Option (Job F)) (opened : List ℤ) {req : OrderRequest F}
      → Effect setup req q q'
      → Fine setup q (on_the_way hand q.ch) opened
      → Fine setup q' (on_the_way hand q'.ch) opened
  Effect-Inv q q' hand opened (inl k) v = Keeps-Inv q q' hand opened k v
  Effect-Inv q q' hand opened (inr t) v =
      subst (λ l. Fine setup q' l opened)
        (on_the_way-append hand q.ch t.job ∙ ap (on_the_way hand) (sym t.ch))
        (Sends-Fine q q' (on_the_way hand q.ch) opened t v)

  recover-Keeps : (q : Queue F) (io : Io) → IsVisible setup → Keeps setup q (recover setup q io).0
  recover-Keeps q io vis =
      unfold recover in
      if_both (λ (r : Queue F × Outcome Error (Unit {0})). Keeps setup q r.0) q.indexed
        (recover_locked-Keeps setup q io vis) (Keeps-refl setup q)

  pub Inv-start : (d : Disk) → IsUnique setup d.index → Inv (start d)
  unfolding new_queue
  Inv-start d u = record {
    indexed = refl;
    bounded = λ r. absurd (cc);
    core = record { saved = tt; apart = tt; unique = u; owned = tt; spent = tt; once = tt };
  }

  no_live :
      (d : IndexDir) (live : List (Job F)) (opened : List ℤ)
      → Core setup d live opened
      → Core setup d [] opened
  no_live d live opened c = record {
    saved = tt;
    apart = tt;
    unique = c.unique;
    owned = c.owned;
    spent =
        All-map {Q = λ n. All (λ (j : Job F). j.order_number ≢ n) []} (λ n a. tt) opened c.spent;
    once = c.once;
  }

  restart-Core :
      (d : IndexDir) (hand : Option (Job F)) (ch : List (Job F)) (l : List ℤ) (opened : Bool)
      → Core setup d (on_the_way hand ch) l
      → Core setup d [] (elim hand [ none ↦ l | some job ↦ note_opened opened job.order_number l ])
  restart-Core d none ch l opened c = no_live d ch l c
  restart-Core d (some job) ch l opened c =
      let s = c.saved.0 in
      no_live d ch (note_opened opened job.order_number l) (
        finish-Core setup d d ch l job s.entry c
          (λ old has. rw (same_some (sym has ∙ s.job_entry)) (refl, refl))
          (IsSave-nothing setup d s.entry s.loads) opened
          (λ _ r. not_reserved s.entry s.entry refl s.state r))

  -- The sender changes the disk under the queue, but not its index.
  on_disk-Fine :
      (q : Queue F) (d : Disk) (live : List (Job F)) (opened : List ℤ)
      → d.index ≡ q.disk.index
      → Fine setup q live opened
      → Fine setup (record q { disk = d }) live opened
  on_disk-Fine q d live opened e v = record {
    indexed = v.indexed;
    bounded = λ r. rw e (v.bounded r);
    core = rw e v.core;
  }

-- A run that marks its error opened nothing.
processed_of-IsHonest :
    (o : Outcome OrderFailure OrderResult) (opened : List OrderFile)
    → ((f : OrderFailure) → o ≡ err f → f.not_written ≡ true → opened ≡ [])
    → IsHonest (opens_any opened) (processed_of o)
processed_of-IsHonest (ok r) opened h = tt
processed_of-IsHonest (err f) opened h = λ m. ap opens_any (h f refl m)

module _ {F : Type 0} (setup : Setup F) (windows1255 : ℕ → Option ℕ) (outside : Outside F)
    (config : SenderConfig) where
  -- A job with an entry on disk runs under its own number.
  saved_number : (d : IndexDir) (job : Job F) → IsSaved setup d job → job.order_number ≢ pos 0
  saved_number d job s h =
      let n = s.valid.positive in
      let z : pos s.entry.number ≡ pos 0 = sym s.job_number ∙ h in
      let zero_number : s.entry.number ≡ 0 = cc in omega (arith, n, zero_number)

  -- Every step keeps the invariant.
  pub Step-Inv :
      {s t : System F}
      → IsVisible setup
      → Step setup windows1255 outside config s t
      → Inv setup s
      → Inv setup t
  Step-Inv {s} vis (accepts io req) v =
      Effect-Inv setup s.queue (accept setup s.queue io req).0 s.hand s.opened
        (accept-Effect setup s.queue io req vis v.indexed v.bounded) v
  Step-Inv {s} vis (recovers io) v =
      Keeps-Inv setup s.queue (recover setup s.queue io).0 s.hand s.opened
        (recover-Keeps setup s.queue io vis) v
  Step-Inv {s} vis stops v =
      unfold stop in record { indexed = v.indexed; bounded = v.bounded; core = v.core }
  Step-Inv {s} vis (takes job rest free has) v = record {
    indexed = v.indexed;
    bounded = v.bounded;
    core =
        subst (λ l. Core setup s.queue.disk.index l s.opened)
          (ap (λ h. on_the_way h s.queue.ch) free ∙ has) v.core;
  }
  Step-Inv {s} vis (begins job held) v =
      unfold begin_job set_status in
      record { indexed = v.indexed; bounded = v.bounded; core = v.core }
  Step-Inv {s} vis (finishes job io saves now held) v =
      let sent = run_job setup windows1255 outside config io s job in
      let sound =
        process_order_with_number-Sound windows1255 outside config io s.queue.disk job.req
          job.order_number in
      let w : Fine setup s.queue (job ∷ s.queue.ch) s.opened =
        subst (λ h. Fine setup s.queue (on_the_way h s.queue.ch) s.opened) held v in
      let number = (sound.kept (saved_number s.queue.disk.index job (w.core.saved.0))).0 in
      rw number (
        finish-Fine setup (record (s.queue) { disk = sent.disk }) saves now job s.opened
          (processed_of sent.result) (opens_any sent.opened)
          (processed_of-IsHonest sent.result sent.opened sound.marked)
          (on_disk-Fine setup s.queue sent.disk (job ∷ s.queue.ch) s.opened sound.index w))
  Step-Inv {s} vis (abandons job saves now cause held) v =
      at_ch setup (abandon setup s.queue saves now job cause) s.queue.ch s.opened
        (abandon-ch setup s.queue saves now job cause)
        (abandon-Fine setup s.queue saves now job cause s.queue.ch s.opened
          (subst (λ h. Fine setup s.queue (on_the_way h s.queue.ch) s.opened) held v))
  Step-Inv {s} vis (abandons_queued saves now cause free) v =
      unfold abandon_queued in
      subst (λ l. Fine setup (emptied saves now cause) l s.opened)
        (sym (
          ap (λ h. on_the_way h (emptied saves now cause).ch) free
          ∙ abandon_all-ch setup (record (s.queue) { ch = [] }) saves now s.queue.ch cause))
        (abandon_all-Fine setup (record (s.queue) { ch = [] }) saves now s.queue.ch cause s.opened
          all_live)
    where
      emptied : Bool → Text → Text → Queue F
      emptied saves now cause =
          abandon_all setup (record (s.queue) { ch = [] }) saves now s.queue.ch cause

      all_live : Fine setup (record (s.queue) { ch = [] }) s.queue.ch s.opened
      all_live =
          let w : Fine setup s.queue s.queue.ch s.opened =
            subst (λ h. Fine setup s.queue (on_the_way h s.queue.ch) s.opened) free v in
          record { indexed = w.indexed; bounded = w.bounded; core = w.core }
  Step-Inv {s} vis (restarts opened counter history document) v =
      unfold new_queue in
      record {
        indexed = refl;
        bounded = λ r. absurd (cc);
        core = restart-Core setup s.queue.disk.index s.hand s.queue.ch s.opened opened v.core;
      }

  pub Reach-Inv :
      {s t : System F}
      → IsVisible setup
      → Inv setup s
      → Reach setup windows1255 outside config s t
      → Inv setup t
  Reach-Inv vis v here = v
  Reach-Inv vis v (next r st) = Step-Inv vis st (Reach-Inv vis v r)
