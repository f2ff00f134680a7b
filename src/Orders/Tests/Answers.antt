-- ===== src/Orders/Tests/Answers.antt =====
-- How the order queue answers concrete requests.
use digi_erp_connector.Base.{
  inl, ◌≡◌, refl, arith, codes, true, false, some, [], ◌∷◌, text_eq, strip_suffix, ok, err,
  has_prefix,
}
use digi_erp_connector.Base.Dict
use digi_erp_connector.Base.Sort
use digi_erp_connector.Base.Int.{suc_int64, pos}
use digi_erp_connector.Base.Decimal.{format, format_int64, parse_int64, read_digits}
use digi_erp_connector.Orders.Types.{Entry, JobStatus, written, done, index_unreadable}
use digi_erp_connector.Orders.Index.Untrusted.{no_object}
use digi_erp_connector.Orders.Counter.{peek, read, write, advance_past}
use digi_erp_connector.Orders.Index.{
  IndexDir, not_json, json, file, marshal, path_for, load_stem, load, save, state_text, parse_state,
  decode,
}
use digi_erp_connector.Orders.Index.Listing.{all, rank, shared_problems}
use digi_erp_connector.Orders.Queue.Recover.{recover_locked, highest_history, scan_numbers}
use digi_erp_connector.Orders.Queue.State.{enqueue, set_status, lookup_number, Queue, new_queue}
use digi_erp_connector.Orders.Queue.Accept.{accept}
use digi_erp_connector.Orders.Queue.Accept.Sends.{Effect}
use digi_erp_connector.Orders.Queue.Accept.Effects.{accept-Effect}
use digi_erp_connector.Orders.Queue.Accept.Repeats.{
  Stands, accept_repeat, accept_untrusted, accept-finish_job,
}
use digi_erp_connector.Orders.Queue.Worker.{with_outcome, order_error_text, finish_job}
use digi_erp_connector.Orders.Queue.Steps.{start}
use digi_erp_connector.Orders.Tests.Data.{
  setup, setup-IsVisible, disk, io, request, order, first_job, outcome, accepted_one, taken_one,
}

-- Accept, its repeats and its refusals.
accept-Effect_example : Effect setup request (start disk).queue accepted_one.queue
unfolding new_queue
accept-Effect_example =
    accept-Effect setup (start disk).queue io request setup-IsVisible refl (λ h. absurd (cc))

abbrev index_of : Entry → IndexDir
index_of e = (codes "ak1.json", file (json (marshal e) false)) ∷ []

abbrev written_order : Entry
written_order = record (order (codes "k1") 42) { state = written }

abbrev restarted : Queue (Unit {0})
restarted = new_queue (record disk { index = index_of written_order }) true

finds_written :
    Dict.lookup (path_for (setup.stem (codes "k1"))) (index_of written_order)
    ≡ some (file (json (marshal written_order) false))
unfolding Dict.lookup path_for text_eq
finds_written = refl

accept_repeat_example :
    (s : JobStatus) × (accept setup restarted io request
      ≡ (restarted, ok (record { job_id = format 42; status = s; replay = true })))
    × Stands setup restarted written_order s
unfolding new_queue
accept_repeat_example =
    accept_repeat setup restarted io request written_order refl refl refl
      (record { has_key = refl; positive = omega arith }) refl finds_written (inl (λ h. cc))

abbrev broken : Queue (Unit {0})
broken = new_queue (record disk { index = (codes "ak1.json", file not_json) ∷ [] }) true

finds_broken :
    Dict.lookup (path_for (setup.stem (codes "k1"))) ((codes "ak1.json", file not_json) ∷ [])
    ≡ some (file not_json)
unfolding Dict.lookup path_for text_eq
finds_broken = refl

accept_untrusted_example : accept setup broken io request ≡ (broken, err index_unreadable)
unfolding new_queue
accept_untrusted_example =
    accept_untrusted setup broken io request (file not_json) refl refl refl refl finds_broken
      no_object

saves_first :
    (save setup.stem taken_one.queue.disk.index true
      (with_outcome (order (codes "k1") 42) outcome (codes "later"))).1
    ≡ ok tt
unfolding accept new_queue load load_stem Dict.lookup recover_locked highest_history all Sort.sort
    rank shared_problems peek read parse_int64 read_digits suc_int64 save enqueue set_status
    Dict.insert Dict.delete text_eq advance_past write format format_int64 path_for state_text
    has_prefix strip_suffix scan_numbers lookup_number decode parse_state with_outcome
    order_error_text
saves_first = refl

taken_indexed : taken_one.queue.indexed ≡ true
unfolding accept new_queue load load_stem Dict.lookup recover_locked highest_history all Sort.sort
    rank shared_problems peek read parse_int64 read_digits suc_int64 save enqueue set_status
    Dict.insert Dict.delete text_eq advance_past write format format_int64 path_for state_text
    has_prefix strip_suffix scan_numbers lookup_number decode parse_state
taken_indexed = refl

accept-finish_job_example :
    (accept setup
      (new_queue
        (finish_job setup taken_one.queue true (codes "later") first_job outcome).disk
        true)
      io
      request).1
    ≡ ok (record { job_id = format 42; status = done; replay = true })
accept-finish_job_example =
    accept-finish_job setup taken_one.queue io request first_job (order (codes "k1") 42) (pos 42)
      (codes "IMOVEIN.doc" ∷ []) (codes "later") taken_indexed refl refl
      (record { has_key = refl; positive = omega arith }) refl saves_first
