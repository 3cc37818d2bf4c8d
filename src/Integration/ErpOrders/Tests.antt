-- ===== src/Integration/ErpOrders/Tests.antt =====
-- The theorems on orders of the ERP at concrete tables, and two conversions at once.
use mes_cpp.Base.{
  ◌≡◌, refl, true, false, none, some, List, [], ◌∷◌, pos, ℤ, length, find_row, update_rows, any_row,
  select, String,
}
use mes_cpp.WorkOrder.Store as Store
use mes_cpp.WorkOrder.Orders.{
  create, create_txn, create_rows, process_of, steps_of, sort_steps, insert_step, insert_operations,
}
use mes_cpp.Integration.Logs.{ok}
use mes_cpp.Integration.ErpOrders.{
  ErpOrder, Incoming, Sync, World, converted_to, upsert, sync_orders, convert_erp_order,
  convert_checked, finish_convert, check_order, check_product, link_work_order,
}
use mes_cpp.Integration.ErpOrders.Synced.{Synced, sync_orders-Synced}
use mes_cpp.Integration.ErpOrders.Converted.{Converted, convert_erp_order-Converted}

abbrev erp_order : ErpOrder
erp_order = record {
  id = 3;
  erp_order_no = "SO-1";
  product_code = "P1";
  quantity = pos 4;
  priority = pos 5;
  status = 0;
  work_order_id = none;
}

abbrev incoming : String → ℤ → Incoming
incoming number quantity = record {
  order_no = number;
  product_code = "P1";
  quantity = quantity;
  priority = pos 5;
}

abbrev table : Sync
table = record { rows = erp_order ∷ []; next_id = 4; total = 0; inserted = 0; updated = 0 }

abbrev answer : List Incoming
answer = incoming "SO-1" (pos 9) ∷ incoming "" (pos 1) ∷ incoming "SO-2" (pos 2) ∷ []

sync_orders-Synced_example : Synced table (sync_orders answer table)
sync_orders-Synced_example = sync_orders-Synced answer table

-- One row is new and one is changed.
counters : (sync_orders answer table).inserted ≡ 1
unfolding sync_orders upsert any_row update_rows
counters = refl

abbrev product : Store.Product
product = record { id = pos 5; process_id = some (pos 9); deleted = false }

abbrev world : World
world = record {
  db = record {
    orders = [];
    operations = [];
    outbox = [];
    products = product ∷ [];
    steps =
        record {
          id = 1;
          process_id = pos 9;
          step_seq = pos 1;
          step_name = "assemble";
          quality_check = false;
        }
        ∷ [];
    inspections = [];
    quality_gate_enabled = none;
    next_order_id = 1;
    next_operation_id = 1;
    order_no_seq = 1;
  };
  erp_orders = erp_order ∷ [];
}

abbrev env : Store.Env
env = record { now = 100; user_id = 7; gen_no = λ n. "WO1"; committed = true; dropped = λ a b. a }

convert_erp_order-Converted_example :
    Converted 3 1 world (convert_erp_order env (λ o. "") (λ c. some product) 3 world).0
unfolding convert_erp_order convert_checked finish_convert check_order check_product link_work_order
    create create_txn create_rows process_of steps_of sort_steps insert_step insert_operations
    find_row select update_rows Store.end_txn
convert_erp_order-Converted_example =
    convert_erp_order-Converted env (λ o. "") (λ c. some product) 3 1 world refl

-- Two requests that both read the order before one of them has marked it make two work orders.
twice :
    let first = finish_convert env (λ o. "") erp_order (ok (pos 5, pos 9)) world in
    let second = finish_convert env (λ o. "") erp_order (ok (pos 5, pos 9)) first.0 in
    (second.1 ≡ converted_to 2) × (length second.0.db.orders ≡ 2)
unfolding finish_convert link_work_order create create_txn create_rows process_of steps_of
    sort_steps insert_step insert_operations find_row select update_rows Store.end_txn
twice = (refl, refl)
