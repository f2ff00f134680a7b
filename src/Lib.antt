-- ===== src/Lib.antt =====
-- Verification of the digi-erp-connector, a service that writes the orders and the receipts of a
-- web shop into the import files of the Hasavshevet ERP.
--
-- Orders (internal/erp/hasavshevet/queue.go, order_index.go, order_number.go). An accepted order
-- gets the next number of a counter file, an entry in an index of one JSON file for each key
-- (historyId), and a job in a channel; a single worker hands the jobs to the sender, which writes
-- the IMOVEIN files, and records what became of each in the index.
--   Orders/Types         the requests and entries (send_order.go, order_index.go)
--   Orders/Counter       OrderNumberStore: Next, Peek, advancePast, read, write
--   Orders/Index         orderIndex: load, loadStem, save, decodeOrderIndexEntry; all in Listing
--   Orders/Sender        send_order.go: Check validates the request, Account finds the account and
--                        the rate, Header is buildIMOVEIN, Process is processOrderWithNumber with
--                        the writing of the files; Outside lists what it takes from outside
--   Orders/Queue/State   OrderQueue's fields, the disk under it, enqueueLocked, setStatus, Stop
--   Orders/Queue/Recover recoverLocked, highestHistoryNumber
--   Orders/Queue/Accept  Accept with acceptKeyedLocked, acceptUnkeyedLocked, requeueLocked, replay
--   Orders/Queue/Worker  recordOutcome, run, abandon, abandonQueued, Status, Unfinished
--   Orders/Queue/Steps   the queue, the worker and restarts as a step relation
--   Orders/Queue/Once    the invariant of runs; Orders/Queue/Safety reads the results off it
-- Documents (internal/erp/hasavshevet/imovein.go, encode1255.go, kupain.go,
-- document_fields.go): the fixed-width files.
--   Documents/Imovein    the order's DOC and PRM: the two tables, padW1255, buildDOCRecord,
--                        generateDOC, generatePRM
--   Documents/Encoding   normalize1255, trimEdges, encode1255Strict, encodeField
--   Documents/Kupain     the receipt's DOC and PRM: kupainFields, buildKUPAINRecord, cardName,
--                        generateKUPAINDOC, generateKUPAINPRM
--   Documents/Fields     document_fields.go: ValidateDocumentFields, FormatVatPercent
--   Documents/Layout     records of cells, the positions of the cells, and cuts at positions
-- Receipts (internal/erp/hasavshevet/receipt_number.go, receipt_index.go, receipt_writer.go). A
-- receipt's key gets the next number of a store that a person seeds, an entry in an index of one
-- JSON file for each key, and the KUPAIN files; a crash between these is finished by Recover.
--   Receipts/Number      ReceiptNumberStore: Peek, advancePast, Seed
--   Receipts/Index       receiptIndex: load, save, all, decodeReceiptIndexEntry; Key is
--                        canonicalReceiptKey, Untrusted tells the files that load refuses
--   Receipts/Writer/State    ReceiptWriter's fields, its configuration, the disk under it
--   Receipts/Writer/Complete complete and writeIfDifferent; Run is runImport, Recover is
--                            recoverLocked with the data lock, Write is Write
--   Receipts/Writer/Steps    the writer and its restarts as a step relation; Gapless and its
--                            children are the invariant of runs, Safety reads the results off it
--   Auth/Token               internal/auth/token.go: new_signer, sign and verify are NewSigner,
--                            Sign and Verify; a time is its nanoseconds since 1970
--   Platform/AtomicFile      internal/platform/atomicfile/atomicfile.go: write_file is Write,
--                            rename_retrying is renameRetrying; Laws is about the renames,
--                            Replaced about the disk that Write leaves
-- Base holds what these use: texts as lists of code points (the input is decoded JSON, so valid
-- UTF-8), decimal printing and strconv.ParseInt, maps as association lists, results, sorting.
--
-- Each operation under a mutex is one function from the state before to the state after, and the
-- steps are the critical sections, in any order. A crash inside Accept leaves what an Accept whose
-- counter write fails, or that goes through, leaves on disk before a restart; one inside a call of
-- the receipt writer leaves what a call whose next file operation fails leaves. What the file system
-- decides (a write fails, a folder cannot be listed) is an argument; the orders and the receipts
-- take atomicfile.Write as one that replaces a whole file or leaves it. A step of the worker runs
-- the sender of Orders/Sender/Process. At a restart the index is as it was, and the counter, the
-- history and the files may be anything.
-- Parameters stand for code that is not of this repository: the SHA-256 stem of a key and the
-- fingerprint of a request, the byte of a character in Windows-1255, NFC, unicode.IsSpace and
-- time.Parse, filepath.Join, float64 with fmt's print of it, the database's rows,
-- and HMAC, base64url and JSON of the tokens. Nothing is assumed of them but what a theorem names.
--
-- Platform/AtomicFile runs the loop of renames, which has no bound of its own, on fuel for six
-- turns; the permissions of files and the making of directories are left out of it. A token's times
-- are natural numbers: a clock before 1970, a negative ttl and the wrap of time.Time are left out.
--
-- An int64 is a ℤ whose additions wrap as int64 does (suc_int64). The decimal printer runs on fuel
-- one above the number, which is more than its digits. An entry's retry count is a natural number:
-- its wrap after 2 ^ 63 retries is left out. sort.Slice is an insertion sort: the order of
-- entries with one number is not specified in the source. The steps allow more than the worker
-- does: it may give up a job or mark it running at any moment while it holds it.
--
-- The four files of a receipt are taken as four different files. A receipt's notices are the data
-- type Notice, one constructor for each text that the writer may add.
--
-- Not modelled: the log; json.Marshal and json.Decoder beyond which files decode; the SQL text and
-- the importer processes; the HTTP server, its handlers and middleware; named queries; provisioning,
-- the other platform packages, configuration and the commands.
pub mod Auth
pub mod Base
pub mod Documents
pub mod Orders
pub mod Platform
pub mod Receipts
