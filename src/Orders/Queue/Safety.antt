-- ===== src/Orders/Queue/Safety.antt =====
-- internal/erp/hasavshevet/queue.go: runs of the queue, its worker and its restarts, from a first
-- start.
use digi_erp_connector.Base.{ℕ, Option, ◌≢◌, All, Pairwise}
use digi_erp_connector.Base.Int.{ℤ}
use digi_erp_connector.Orders.Queue.State.{Setup, Disk}
use digi_erp_connector.Orders.Sender.Outside.{Outside, SenderConfig}
use digi_erp_connector.Orders.Queue.Recover.Bounds.{IsVisible}
use digi_erp_connector.Orders.Queue.Steps.{System, Reach, start}
use digi_erp_connector.Orders.Queue.Once.{IsUnique, IsSaved, IsOwned, Apart}
use digi_erp_connector.Orders.Queue.Once.Reachable.{Inv-start, Reach-Inv}
use digi_erp_connector.Orders.Queue.Once.Worked.{on_the_way}

module _ {F : Type 0} (setup : Setup F) (windows1255 : ℕ → Option ℕ) (outside : Outside F)
    (config : SenderConfig) where
  -- In every run from the first start on a disk whose readable entries hold different numbers and
  -- with file names that do not begin with a dot, the order numbers whose files the sender has
  -- opened for writing are all different, across accepts, repeats, retries, failures and restarts.
  pub opened_once :
      (d : Disk) (s : System F)
      → IsVisible setup
      → IsUnique setup d.index
      → Reach setup windows1255 outside config (start d) s
      → Pairwise (λ (m n : ℤ). m ≢ n) s.opened
  opened_once d s vis u r =
      (Reach-Inv setup windows1255 outside config vis (Inv-start setup d u) r).core.once

  -- In every run from the first start on a disk whose readable entries hold different numbers and
  -- with file names that do not begin with a dot, no two index files hold readable entries with
  -- one order number.
  pub numbers-IsUnique :
      (d : Disk) (s : System F)
      → IsVisible setup
      → IsUnique setup d.index
      → Reach setup windows1255 outside config (start d) s
      → IsUnique setup s.queue.disk.index
  numbers-IsUnique d s vis u r =
      (Reach-Inv setup windows1255 outside config vis (Inv-start setup d u) r).core.unique

  -- In every run from the first start on a disk whose readable entries hold different numbers and
  -- with file names that do not begin with a dot, each job in the worker's hand or in the channel
  -- has its entry on disk, reserved and with the job's number, no two of them have one file, and
  -- no number of theirs has been opened before.
  pub jobs_saved :
      (d : Disk) (s : System F)
      → IsVisible setup
      → IsUnique setup d.index
      → Reach setup windows1255 outside config (start d) s
      → All (IsSaved setup s.queue.disk.index) (on_the_way s.hand s.queue.ch)
        × Pairwise (Apart setup) (on_the_way s.hand s.queue.ch)
        × All (λ n. All (λ j. j.order_number ≢ n) (on_the_way s.hand s.queue.ch)) s.opened
  jobs_saved d s vis u r =
      let c = (Reach-Inv setup windows1255 outside config vis (Inv-start setup d u) r).core in
      (c.saved, c.apart, c.spent)

  -- In every run from the first start on a disk whose readable entries hold different numbers and
  -- with file names that do not begin with a dot, each number whose files were opened is owned by
  -- a readable entry that is not retryable, so no repeat of its key queues it again.
  pub opened-IsOwned :
      (d : Disk) (s : System F)
      → IsVisible setup
      → IsUnique setup d.index
      → Reach setup windows1255 outside config (start d) s
      → All (IsOwned setup s.queue.disk.index) s.opened
  opened-IsOwned d s vis u r =
      (Reach-Inv setup windows1255 outside config vis (Inv-start setup d u) r).core.owned
