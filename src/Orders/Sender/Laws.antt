-- ===== src/Orders/Sender/Laws.antt =====
-- internal/erp/hasavshevet/send_order.go: what a run of the sender may leave behind.
use digi_erp_connector.Base.{
  ◌↔◌, ℕ, suc, ◌≡◌, ◌≢◌, refl, sym, ap, ◌∙◌, subst, Text, is_empty, true, not, Option, List, [],
  ◌++◌, if_both, Outcome, ok, err,
}
use digi_erp_connector.Base.Int.{ℤ, pos, negsuc}
use digi_erp_connector.Documents.Encoding.{trim_space}
use digi_erp_connector.Documents.Layout.{Bytes}
use digi_erp_connector.Documents.Imovein.{generate_doc, generate_prm}
use digi_erp_connector.Orders.Types.{OrderRequest}
use digi_erp_connector.Orders.Counter.{CounterFile}
use digi_erp_connector.Orders.Queue.State.{Disk, OrderFailure}
use digi_erp_connector.Orders.Sender.Outside.{
  Outside, SenderConfig, SendIo, SendError, AccountInfo, dir_not_configured,
  history_dir_not_created,
}
use digi_erp_connector.Orders.Sender.Check.{validate_order_request}
use digi_erp_connector.Orders.Sender.Account.{resolve_account, rate_of}
use digi_erp_connector.Orders.Sender.Header.{stock_header, stock_moves}
use digi_erp_connector.Orders.Sender.Process.{
  Sent, checked, write_numbered, result_of, OrderFile, OrderResult, no_importer, order_files,
  process_order_with_number, stopped_early, importer_of, write_order, with_history,
}
use digi_erp_connector.Orders.Sender.Loop.{paths, Loop, write_files-Loop, err_marked}

module _ {F : Type 0} (windows1255 : ℕ → Option ℕ) (outside : Outside F) (config : SenderConfig)
    (io : SendIo F) where
  abbrev pub run : Disk → OrderRequest F → ℤ → Sent
  run disk req n = process_order_with_number windows1255 outside config io disk req n

  -- The four files of an order: its document and the positions, each twice.
  abbrev pub documents : OrderRequest F → ℤ → AccountInfo → List OrderFile
  documents req n account =
      let header = stock_header outside n account req (rate_of outside config io req) io.now in
      order_files windows1255 outside config io n
        (generate_doc windows1255 header (stock_moves outside req.details))
        (generate_prm windows1255)

  -- A run that succeeded: every file of the account's order was opened, and all are listed.
  pub record IsWhole (req : OrderRequest F) (n : ℤ) (opened : List OrderFile) (r : OrderResult)
      : Type 0 where
    pub found : AccountInfo
    pub account : resolve_account outside config io req ≡ ok found
    pub files : opened ≡ documents req n found
    pub account_key : r.account.account_key ≡ found.account_key
    pub full_name : r.account.full_name ≡ found.full_name
    pub address : r.account.address ≡ found.address
    pub city : r.account.city ≡ found.city
    pub phone : r.account.phone ≡ found.phone
    pub listed : r.written_files ≡ paths opened
    pub number : r.order_number ≡ n

  -- What a run may leave: nothing is opened before an error that is marked, no importer is started
  -- after an error, the files opened are first ones of the four, and a success is all four.
  pub record Sound (disk : Disk) (req : OrderRequest F) (n : ℤ) (s : Sent) : Type 0 where
    pub marked : (f : OrderFailure) → s.result ≡ err f → f.not_written ≡ true → s.opened ≡ []
    pub unopened : (f : OrderFailure) → s.result ≡ err f → s.opened ≡ [] → f.not_written ≡ true
    pub idle : (f : OrderFailure) → s.result ≡ err f → s.importer ≡ no_importer
    pub index : s.disk.index ≡ disk.index
    pub kept : n ≢ pos 0 → (s.number ≡ n) × (s.disk.counter ≡ disk.counter)
    pub done : (r : OrderResult) → s.result ≡ ok r → IsWhole req s.number s.opened r
    pub prefix :
        (doc prm : Bytes) × (rest : List OrderFile) × (s.opened ++ rest
          ≡ order_files windows1255 outside config io s.number doc prm)

  early-Sound :
      (disk : Disk) (req : OrderRequest F) (n : ℤ) (e : SendError)
      → Sound disk req n (stopped_early windows1255 outside config io disk n e)
  early-Sound disk req n e = record {
    marked = λ f h m. refl;
    unopened = λ f h o. sym (err_marked windows1255 outside config io _ f h);
    idle = λ f h. refl;
    index = refl;
    kept = λ h. (refl, refl);
    done = λ r h. absurd (cc);
    prefix = ([], [], order_files windows1255 outside config io n [] [], refl);
  }

  same_ok :
      (a b : OrderResult) → (let o : Outcome OrderFailure OrderResult = ok a in o ≡ ok b) → a ≡ b
  same_ok a b h = cc

  written-Sound :
      (disk : Disk) (req : OrderRequest F) (n : ℤ) (account : AccountInfo)
      (o : Outcome OrderFailure (List Text)) (opened : List OrderFile)
      → resolve_account outside config io req ≡ ok account
      → Loop windows1255 outside config io
          (documents req n account)
          []
          (record { outcome = o; opened = opened })
      → Sound disk req n (record {
        number = n;
        result = result_of windows1255 outside config io n account o;
        disk = with_history n opened disk;
        opened = opened;
        importer = importer_of windows1255 outside config io o;
      })
  unfolding importer_of
  written-Sound disk req n account (err e) opened a loop = record {
    marked = λ f h m. (loop.marked e refl (err_marked windows1255 outside config io e f h ∙ m)).0;
    unopened =
        λ f h o. sym (err_marked windows1255 outside config io e f h) ∙ loop.unopened e refl o refl;
    idle = λ f h. refl;
    index = refl;
    kept = λ h. (refl, refl);
    done = λ r h. absurd (cc);
    prefix = (_, _, loop.prefix.0, loop.prefix.1);
  }
  written-Sound disk req n account (ok l) opened a loop = record {
    marked = λ f h m. absurd (cc);
    unopened = λ f h o. absurd (cc);
    idle = λ f h. absurd (cc);
    index = refl;
    kept = λ h. (refl, refl);
    done = λ r h.
        subst (λ t. IsWhole req n opened t) (same_ok _ r h)
          (record {
            found = account;
            account = a;
            files = (loop.all l refl).0;
            account_key = refl;
            full_name = refl;
            address = refl;
            city = refl;
            phone = refl;
            listed = (loop.all l refl).1 ∙ ap paths (sym ((loop.all l refl).0));
            number = refl;
          });
    prefix = (_, _, loop.prefix.0, loop.prefix.1);
  }

  write_order-Sound :
      (disk : Disk) (req : OrderRequest F) (n : ℤ) (account : Outcome SendError AccountInfo)
      → resolve_account outside config io req ≡ account
      → Sound disk req n (write_order windows1255 outside config io disk req n account)
  unfolding write_order
  write_order-Sound disk req n (err e) a = early-Sound disk req n e
  write_order-Sound disk req n (ok account) a =
      if_both (Sound disk req n) (not io.makes_dir) (early-Sound disk req n history_dir_not_created)
        (written-Sound disk req n account _ _ a
          (write_files-Loop windows1255 outside config io (documents req n account) []))

  -- A run that takes its number itself: the disk before it has the old counter.
  counted-Sound :
      (disk : Disk) (counter : CounterFile) (req : OrderRequest F) (n : ℤ) (s : Sent)
      → Sound (record disk { counter = counter }) req n s
      → Sound disk req (pos 0) s
  counted-Sound disk counter req n s v = record {
    marked = v.marked;
    unopened = v.unopened;
    idle = v.idle;
    index = v.index;
    kept = λ h. absurd (h refl);
    done = v.done;
    prefix = v.prefix;
  }

  numbered-Sound :
      (disk : Disk) (req : OrderRequest F) (taken : Outcome SendError ℤ)
      → (n : ℤ) × Sound disk req n (write_numbered windows1255 outside config io disk req taken)
  unfolding write_numbered
  numbered-Sound disk req (err e) = (pos 0, early-Sound disk req (pos 0) e)
  numbered-Sound disk req (ok n) = (n, write_order-Sound disk req n _ refl)

  unnumbered-Sound :
      (disk : Disk) (req : OrderRequest F) (p : CounterFile × Outcome SendError ℤ)
      → Sound disk req
          (pos 0)
          (write_numbered windows1255 outside config io (record disk { counter = p.0 }) req p.1)
  unnumbered-Sound disk req (counter, taken) =
      let (n, v) = numbered-Sound (record disk { counter = counter }) req taken in
      counted-Sound disk counter req n _ v

  checked-Sound :
      (disk : Disk) (req : OrderRequest F) (n : ℤ) (c : Outcome SendError (Unit {0}))
      → Sound disk req n (checked windows1255 outside config io disk req n c)
  unfolding checked
  checked-Sound disk req n (err e) = early-Sound disk req n e
  checked-Sound disk req (pos ℕ.zero) (ok _) = unnumbered-Sound disk req _
  checked-Sound disk req (pos (suc n)) (ok _) =
      unfold write_numbered in write_order-Sound disk req (pos (suc n)) _ refl
  checked-Sound disk req (negsuc n) (ok _) =
      unfold write_numbered in write_order-Sound disk req (negsuc n) _ refl

  pub process_order_with_number-Sound :
      (disk : Disk) (req : OrderRequest F) (n : ℤ) → Sound disk req n (run disk req n)
  unfolding process_order_with_number
  process_order_with_number-Sound disk req n =
      if_both (Sound disk req n) (is_empty (trim_space outside.unicode config.send_order_dir))
        (early-Sound disk req n dir_not_configured)
        (checked-Sound disk req n (validate_order_request outside.float req))

  -- An error of a run of the sender is marked as not written exactly when the run opened no order
  -- file, and a run with an error starts no importer.
  pub failed_unopened :
      (disk : Disk) (req : OrderRequest F) (n : ℤ) (f : OrderFailure)
      → (run disk req n).result ≡ err f
      → ((f.not_written ≡ true) ↔ ((run disk req n).opened ≡ []))
        × ((run disk req n).importer ≡ no_importer)
  failed_unopened disk req n f h =
      let v = process_order_with_number-Sound disk req n in
      ((v.marked f h, v.unopened f h), v.idle f h)

  -- A run of the sender that succeeds under a number other than 0 opened the four files of that
  -- order, in their order, with the documents made from the account that was found and the
  -- request, and it reports that number, the key, name, address, city and phone of that account,
  -- and all four paths.
  pub order_documents :
      (disk : Disk) (req : OrderRequest F) (n : ℤ) (r : OrderResult)
      → n ≢ pos 0
      → (run disk req n).result ≡ ok r
      → IsWhole req n (run disk req n).opened r
  order_documents disk req n r given h =
      let v = process_order_with_number-Sound disk req n in
      subst (λ m. IsWhole req m (run disk req n).opened r) ((v.kept given).0) (v.done r h)
