-- ===== src/Orders/Tests/Runs.antt =====
-- Concrete runs of the order queue with its sender.
use digi_erp_connector.Base.{
  ◌≢◌, All, Pairwise, ◌≡◌, refl, codes, true, none, some, [], ◌∷◌, text_eq, strip_suffix,
  has_prefix,
}
use digi_erp_connector.Base.Dict
use digi_erp_connector.Base.Sort
use digi_erp_connector.Base.Int.{ℤ, pos, suc_int64}
use digi_erp_connector.Base.Decimal.{format, format_int64, parse_int64, read_digits}
use digi_erp_connector.Orders.Counter.{peek, read, write, advance_past}
use digi_erp_connector.Orders.Index.{
  path_for, load_stem, load, save, state_text, parse_state, decode,
}
use digi_erp_connector.Orders.Index.Listing.{all, rank, shared_problems}
use digi_erp_connector.Orders.Queue.Recover.{recover_locked, highest_history, scan_numbers}
use digi_erp_connector.Orders.Queue.State.{enqueue, set_status, lookup_number, new_queue}
use digi_erp_connector.Orders.Queue.Accept.{accept}
use digi_erp_connector.Orders.Queue.Once.{IsUnique, IsSaved, IsOwned, Apart}
use digi_erp_connector.Orders.Queue.Once.Worked.{on_the_way}
use digi_erp_connector.Orders.Queue.Worker.{
  record_outcome, record_entry, with_outcome, order_error_text, set_final, finish_job,
}
use digi_erp_connector.Orders.Queue.Steps.{
  System, note_opened, opens_any, processed_of, run_job, Reach, start, here, next, accepts, takes,
  finishes,
}
use digi_erp_connector.Orders.Queue.Safety.{
  opened_once, numbers-IsUnique, jobs_saved, opened-IsOwned,
}
use digi_erp_connector.Orders.Tests.Sending.{ascii, outside, config, send_io}
use digi_erp_connector.Orders.Sender.Process.{
  Sent, process_order_with_number, write_files, order_files,
}
use digi_erp_connector.Documents.Encoding.{trim_space}
use digi_erp_connector.Documents.Fields.{validate_document_fields}
use digi_erp_connector.Orders.Sender.Check.{validate_order_request}
use digi_erp_connector.Orders.Sender.Account.{resolve_account}
use digi_erp_connector.Orders.Tests.Data.{
  setup, setup-IsVisible, disk, io, request, second_request, first_job, second_job, accepted_one,
  accepted_two, taken_one,
}

abbrev sent_one : Sent
sent_one = run_job setup ascii outside config send_io taken_one first_job

abbrev finished_one : System (Unit {0})
finished_one = record {
  queue =
      finish_job setup (record (taken_one.queue) { disk = sent_one.disk }) true (codes "later")
        first_job (processed_of sent_one.result);
  hand = none;
  opened = note_opened (opens_any sent_one.opened) sent_one.number [];
}

abbrev taken_two : System (Unit {0})
taken_two = record finished_one {
  queue = record (finished_one.queue) { ch = [] };
  hand = some second_job;
}

abbrev sent_two : Sent
sent_two = run_job setup ascii outside config send_io taken_two second_job

abbrev finished_two : System (Unit {0})
finished_two = record {
  queue =
      finish_job setup (record (taken_two.queue) { disk = sent_two.disk }) true (codes "later")
        second_job (processed_of sent_two.result);
  hand = none;
  opened = note_opened (opens_any sent_two.opened) sent_two.number finished_one.opened;
}

queued_jobs :
    (accepted_two.queue.ch ≡ first_job ∷ second_job ∷ [])
    × (finished_one.queue.ch ≡ second_job ∷ [])
    × (finished_two.opened ≡ pos 43 ∷ pos 42 ∷ [])
unfolding accept new_queue load load_stem Dict.lookup recover_locked highest_history all Sort.sort
    rank shared_problems peek read parse_int64 read_digits suc_int64 save enqueue set_status
    Dict.insert Dict.delete text_eq advance_past write format format_int64 path_for state_text
    has_prefix strip_suffix scan_numbers lookup_number decode parse_state finish_job record_outcome
    record_entry with_outcome order_error_text set_final process_order_with_number trim_space
    validate_order_request validate_document_fields resolve_account write_files order_files
queued_jobs = (refl, refl, refl)

accepts_one : Reach setup ascii outside config (start disk) accepted_one
accepts_one = next here (accepts io request)

accepts_two : Reach setup ascii outside config (start disk) accepted_two
accepts_two = next accepts_one (accepts io second_request)

takes_one : Reach setup ascii outside config (start disk) taken_one
takes_one = next accepts_two (takes first_job (second_job ∷ []) refl (queued_jobs.0))

run : Reach setup ascii outside config (start disk) finished_two
run =
    next
      (next (next takes_one (finishes first_job send_io true (codes "later") refl))
        (takes second_job [] refl (queued_jobs.1)))
      (finishes second_job send_io true (codes "later") refl)

disk-IsUnique : IsUnique setup disk.index
unfolding load_stem Dict.lookup
disk-IsUnique s t e f at_s at_t same = absurd (cc)

opened_once_example : Pairwise (λ (m n : ℤ). m ≢ n) finished_two.opened
opened_once_example =
    opened_once setup ascii outside config disk finished_two setup-IsVisible disk-IsUnique run

numbers-IsUnique_example : IsUnique setup finished_two.queue.disk.index
numbers-IsUnique_example =
    numbers-IsUnique setup ascii outside config disk finished_two setup-IsVisible disk-IsUnique run

jobs_saved_example :
    All
      (IsSaved setup accepted_two.queue.disk.index)
      (on_the_way accepted_two.hand accepted_two.queue.ch)
    × Pairwise (Apart setup) (on_the_way accepted_two.hand accepted_two.queue.ch)
    × All
        (λ n. All (λ j. j.order_number ≢ n) (on_the_way accepted_two.hand accepted_two.queue.ch))
        accepted_two.opened
jobs_saved_example =
    jobs_saved setup ascii outside config disk accepted_two setup-IsVisible disk-IsUnique
      accepts_two

opened-IsOwned_example : All (IsOwned setup finished_two.queue.disk.index) finished_two.opened
opened-IsOwned_example =
    opened-IsOwned setup ascii outside config disk finished_two setup-IsVisible disk-IsUnique run
