-- ===== src/Orders/Tests/Data.antt =====
-- A concrete setup, disk and orders.
use digi_erp_connector.Base.{ℕ, refl, Text, codes, true, some, [], ◌∷◌, has_prefix}
use digi_erp_connector.Base.Int.{pos}
use digi_erp_connector.Orders.Types.{Entry, OrderRequest, reserved}
use digi_erp_connector.Orders.Counter.{field}
use digi_erp_connector.Orders.Index.{path_for}
use digi_erp_connector.Orders.Queue.State.{Setup, Disk, Io, Job, absent}
use digi_erp_connector.Orders.Queue.Accept.{accept}
use digi_erp_connector.Orders.Queue.Steps.{System, start}
use digi_erp_connector.Orders.Queue.Recover.Bounds.{IsVisible}
use digi_erp_connector.Orders.Queue.Worker.{Processed, wrote}

-- A setup whose file stems are the key behind the letter "a".
abbrev pub setup : Setup (Unit {0})
setup = record {
  stem = λ k. b'a' ∷ k;
  request_hash = λ _. [];
  has_store = true;
  order_dir_set = true;
}

pub setup-IsVisible : IsVisible setup
unfolding path_for has_prefix
setup-IsVisible k = refl

abbrev pub disk : Disk
disk = record { counter = field (codes "41"); index = []; history = []; document = λ _. absent }

abbrev pub io : Io
io = record {
  prepared = true;
  listed = true;
  history_listed = true;
  repairs = true;
  saves = true;
  counter_writes = true;
  now = codes "now";
  random_id = codes "r";
}

abbrev pub request : OrderRequest (Unit {0})
request = record {
  document_type = codes "ORDER";
  user_ext_id = codes "C1";
  due_date = codes "2026-11-22";
  created_date = codes "2026-11-22";
  comment = [];
  discount = tt;
  history_id = codes "k1";
  total = tt;
  currency = [];
  customer_email = [];
  details =
      record {
        title = codes "Tea";
        sku = codes "S1";
        quantity = tt;
        packs = tt;
        original_price = tt;
        single_price = tt;
        total_price = tt;
        discount = tt;
      }
      ∷ [];
  account = some (record {
    account_key = codes "C1";
    full_name = codes "Name";
    address = [];
    city = [];
    phone = [];
    agent = [];
    h_protect = [];
  });
  document_id = pos 0;
  warehouse = pos 0;
  vat_percent = [];
  asmahta2 = [];
}

abbrev pub second_request : OrderRequest (Unit {0})
second_request = record request { history_id = codes "k2" }

abbrev pub order : Text → ℕ → Entry
order key n = record {
  key = key;
  number = n;
  state = reserved;
  request_hash = [];
  files = [];
  error = [];
  retries = 0;
  reserved_at = codes "now";
  finished_at = [];
}

abbrev pub first_job : Job (Unit {0})
first_job = record {
  id = codes "42";
  order_number = pos 42;
  req = request;
  entry = some (order (codes "k1") 42);
}

abbrev pub second_job : Job (Unit {0})
second_job = record {
  id = codes "43";
  order_number = pos 43;
  req = second_request;
  entry = some (order (codes "k2") 43);
}

abbrev pub outcome : Processed
outcome = wrote (pos 42) (codes "IMOVEIN.doc" ∷ [])

-- Two orders are accepted, and the worker takes the first.
abbrev pub accepted_one : System (Unit {0})
accepted_one = record (start disk) { queue = (accept setup (start disk).queue io request).0 }

abbrev pub accepted_two : System (Unit {0})
accepted_two = record accepted_one { queue = (accept setup accepted_one.queue io second_request).0 }

abbrev pub taken_one : System (Unit {0})
taken_one = record accepted_two {
  queue = record (accepted_two.queue) { ch = second_job ∷ [] };
  hand = some first_job;
}
