-- ===== src/Integration/ErpOrders.antt =====
-- Orders of the ERP: `syncErpOrders` and `convertErpOrder` of
-- mes-backend/src/services/IntegrationService.cc.
pub mod Synced
pub mod Converted
pub mod Answers
mod Tests
use text.Mathlib.Text.{◌==◌ as str_eq}
use mes_cpp.Base.{
  ℕ, suc, ◌+◌, Bool, true, false, not, Option, none, some, List, [], ◌∷◌, ◌++◌, String, ◌==◌,
  if◌then◌else◌, ℤ, any_row, find_row, update_rows,
}
use mes_cpp.WorkOrder.Store as Store
use mes_cpp.WorkOrder.Orders.{CreateBody, create}
use mes_cpp.Integration.Logs.{
  Error, order_not_found, already_converted, product_missing, process_missing, create_failed,
  Result, ok, err,
}

-- integ_erp_orders, with the columns that are read again. Status 0 is to be converted, 1 converted.
pub record ErpOrder : Type 0 where
  pub id : ℕ
  pub erp_order_no : String
  pub product_code : String
  pub quantity : ℤ
  pub priority : ℤ
  pub status : ℕ
  pub work_order_id : Option ℕ

-- An element of the ERP's answer, with the defaults filled in.
pub record Incoming : Type 0 where
  pub order_no : String
  pub product_code : String
  pub quantity : ℤ
  pub priority : ℤ

-- The table with the sequence of its key, and the counters of the loop.
pub record Sync : Type 0 where
  pub rows : List ErpOrder
  pub next_id : ℕ
  pub total : ℕ
  pub inserted : ℕ
  pub updated : ℕ

abbrev pub has_no : String → ErpOrder → Bool
has_no number o = str_eq o.erp_order_no number

-- DO UPDATE SET; the CASE on the status gives the status that the row has.
abbrev pub refreshed : ℤ → ErpOrder → ErpOrder
refreshed quantity o = record o { quantity = quantity }

abbrev pub new_erp_order : ℕ → Incoming → ErpOrder
new_erp_order id i = record {
  id = id;
  erp_order_no = i.order_no;
  product_code = i.product_code;
  quantity = i.quantity;
  priority = i.priority;
  status = 0;
  work_order_id = none;
}

-- INSERT ... ON CONFLICT (erp_order_no) DO UPDATE, and the counter that goes up. A conflict takes a number of
-- the sequence, too.
unfoldable pub upsert : Incoming → Sync → Sync
upsert i s =
    if any_row (has_no i.order_no) s.rows
    then record s {
      rows = update_rows (has_no i.order_no) (refreshed i.quantity) s.rows;
      next_id = suc s.next_id;
      total = suc s.total;
      updated = suc s.updated;
    }
    else record s {
      rows = s.rows ++ new_erp_order s.next_id i ∷ [];
      next_id = suc s.next_id;
      total = suc s.total;
      inserted = suc s.inserted;
    }

-- The loop over the answer's orders.
unfoldable pub sync_orders : List Incoming → Sync → Sync
sync_orders [] s = s
sync_orders (i ∷ is) s = sync_orders is (if str_eq i.order_no "" then s else upsert i s)

-- The tables that a conversion reads and writes.
pub record World : Type 0 where
  pub db : Store.Db
  pub erp_orders : List ErpOrder

abbrev pub is_erp_order : ℕ → ErpOrder → Bool
is_erp_order id o = o.id == id

-- What a conversion answers: the number of the new work order, or an error, one of its own or one of
-- `create`.
pub data Reply : Type 0 where
  converted_to : ℕ → Reply
  refused : Error → Reply
  not_created : Store.Error → Reply

-- The body that `create` is given; the product's number and its process.
abbrev pub work_order_body : ErpOrder → ℤ → ℤ → String → CreateBody
work_order_body o product process remark = record {
  product_id = some product;
  plan_qty = some o.quantity;
  process_id = some process;
  line_id = none;
  priority = some o.priority;
  remark = some remark;
}

-- UPDATE ... SET status = 1, work_order_id = $1 WHERE id = $2
abbrev pub converted : ℕ → ErpOrder → ErpOrder
converted work_order o = record o { status = 1; work_order_id = some work_order }

unfoldable pub link_work_order : ℕ → List ErpOrder → Store.Db × Store.Result ℕ → World × Reply
link_work_order id erp_orders (db, Store.ok work_order) = (
  record { db = db; erp_orders = update_rows (is_erp_order id) (converted work_order) erp_orders },
  converted_to work_order,
)
link_work_order id erp_orders (db, Store.err e) =
    (record { db = db; erp_orders = erp_orders }, not_created e)

-- The row that the SELECT finds, and whether it may be converted.
unfoldable pub check_order : Option ErpOrder → Result ErpOrder
check_order none = err order_not_found
check_order (some o) = if not (o.status == 0) then err already_converted else ok o

-- The product that the SELECT by its code finds, and its process.
unfoldable pub check_product : Option Store.Product → Result (ℤ × ℤ)
check_product none = err product_missing
check_product (some p) = elim p.process_id [ none ↦ err process_missing | some n ↦ ok (p.id, n) ]

-- The rest after the two SELECTs, with the row that was read before.
unfoldable pub finish_convert :
    Store.Env → (ErpOrder → String) → ErpOrder → Result (ℤ × ℤ) → World → World × Reply
finish_convert env remark o (err e) w = (w, refused e)
finish_convert env remark o (ok (product, process)) w =
    link_work_order o.id w.erp_orders
      (create env (work_order_body o product process (remark o)) w.db)

-- `find_product` is the SELECT of the product by its code, and `remark` the text of the remark.
unfoldable pub convert_checked :
    Store.Env
    → (ErpOrder → String)
    → (String → Option Store.Product)
    → Result ErpOrder
    → World
    → World × Reply
convert_checked env remark find_product (err e) w = (w, refused e)
convert_checked env remark find_product (ok o) w =
    finish_convert env remark o (check_product (find_product o.product_code)) w

unfoldable pub convert_erp_order :
    Store.Env → (ErpOrder → String) → (String → Option Store.Product) → ℕ → World → World × Reply
convert_erp_order env remark find_product id w =
    convert_checked env remark find_product (check_order (find_row (is_erp_order id) w.erp_orders))
      w
