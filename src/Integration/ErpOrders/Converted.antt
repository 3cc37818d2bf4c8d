-- ===== src/Integration/ErpOrders/Converted.antt =====
-- What a conversion leaves behind (mes-backend/src/services/IntegrationService.cc).
use mes_cpp.Base.{
  ℕ, ◌≡◌, refl, ap, sym, subst, ◌∙◌, inl, inr, Bool-cases, Option, none, some, List, [], ◌∷◌, ◌++◌,
  arith, String, ℤ, find_row, find_row-holds, find-update_rows, update_rows, ◌==◌,
}
use mes_cpp.WorkOrder.Store as Store
use mes_cpp.WorkOrder.Orders.{
  CreateBody, create, insert_order, insert_operations, steps_of, new_order,
}
use mes_cpp.WorkOrder.Orders.Effects.{create_cases, insert_operations_rest}
use mes_cpp.Integration.Logs.{already_converted, Result, ok, err}
use mes_cpp.Integration.ErpOrders.{
  ErpOrder, World, Reply, converted_to, refused, not_created, work_order_body, is_erp_order,
  converted, link_work_order, check_order, check_product, finish_convert, convert_checked,
  convert_erp_order,
}

-- A new order at the end of the table, with the number.
pub record Created (n : ℕ) (before after : Store.Db) : Type 0 where
  pub order : Store.Order
  pub number : order.id ≡ n
  pub waits : order.status ≡ 0
  pub appended : after.orders ≡ before.orders ++ order ∷ []

number_of : Store.Result ℕ → ℕ
number_of (Store.ok n) = n
number_of (Store.err e) = 0

-- A transaction that answers a number has committed what it did.
end_txn-ok :
    (env : Store.Env) (before working : Store.Db) (a b : ℕ)
    → (Store.end_txn env before (working, Store.ok a)).1 ≡ Store.ok b
    → ((Store.end_txn env before (working, Store.ok a)).0 ≡ working) × (a ≡ b)
unfolding Store.end_txn number_of
end_txn-ok env before working a b = elim (Bool-cases env.committed) [
  | inl e ↦ rw e (λ h. (refl, ap number_of h))
  | inr e ↦ rw e (λ h. cc h)
]

create-Created :
    (env : Store.Env) (body : CreateBody) (db : Store.Db) (n : ℕ)
    → (create env body db).1 ≡ Store.ok n
    → Created n db (create env body db).0
create-Created env body db n =
    create_cases (λ r. r.1 ≡ Store.ok n → Created n db r.0) env db body (λ e h. cc h) (λ e h. cc h)
      (λ product process plan p h.
        let working = insert_order env body product process plan db in
        let inserted = insert_operations db.next_order_id plan (steps_of process db) working in
        let done = end_txn-ok env db inserted db.next_order_id n h in
        record {
          order =
              new_order env db.next_order_id (env.gen_no db.order_no_seq) body product process plan;
          number = done.1;
          waits = refl;
          appended =
              ap (λ d. d.orders) done.0
              ∙ (insert_operations_rest db.next_order_id plan (steps_of process db) working).0;
        })

number_in : Reply → ℕ
number_in (converted_to n) = n
number_in (refused e) = 0
number_in (not_created e) = 0

link_work_order_lem :
    (id n : ℕ) (erp_orders : List ErpOrder) (r : Store.Db × Store.Result ℕ)
    → (link_work_order id erp_orders r).1 ≡ converted_to n
    → (r.1 ≡ Store.ok n)
      × ((link_work_order id erp_orders r).0.db ≡ r.0)
      × ((link_work_order id erp_orders r).0.erp_orders
          ≡ update_rows (is_erp_order id) (converted n) erp_orders)
unfolding link_work_order number_in
link_work_order_lem id n erp_orders (db, Store.ok m) h =
    let same : m ≡ n = ap number_in h in
    (ap Store.ok same, refl, ap (λ k. update_rows (is_erp_order id) (converted k) erp_orders) same)
link_work_order_lem id n erp_orders (db, Store.err e) h = cc h

-- A conversion of the row that was read, which gives a work order's number.
record Linked (n : ℕ) (o : ErpOrder) (w w' : World) : Type 0 where
  linked : w'.erp_orders ≡ update_rows (is_erp_order o.id) (converted n) w.erp_orders
  created : Created n w.db w'.db

module _ (env : Store.Env) (remark : ErpOrder → String) (n : ℕ) (w : World) where
  finish_convert-Linked :
      (o : ErpOrder) (p : Result (ℤ × ℤ))
      → (finish_convert env remark o p w).1 ≡ converted_to n
      → Linked n o w (finish_convert env remark o p w).0
  unfolding finish_convert
  finish_convert-Linked o (err e) h = cc h
  finish_convert-Linked o (ok (product, process)) h =
      let body = work_order_body o product process (remark o) in
      let link = link_work_order_lem o.id n w.erp_orders (create env body w.db) h in
      record {
        linked = link.2;
        created = subst (Created n w.db) (sym link.1) (create-Created env body w.db n link.0);
      }

  -- What a conversion that gives a number found.
  record Checked (find_product : String → Option Store.Product) (r : Result ErpOrder) : Type 0 where
    row : ErpOrder
    passed : r ≡ ok row
    linked : Linked n row w (convert_checked env remark find_product r w).0

  convert_checked-Checked :
      (find_product : String → Option Store.Product) (r : Result ErpOrder)
      → (convert_checked env remark find_product r w).1 ≡ converted_to n
      → Checked find_product r
  unfolding convert_checked
  convert_checked-Checked find_product (err e) h = cc h
  convert_checked-Checked find_product (ok o) h = record {
    row = o;
    passed = refl;
    linked = finish_convert-Linked o (check_product (find_product o.product_code)) h;
  }

row_in : ErpOrder → Result ErpOrder → ErpOrder
row_in d (ok o) = o
row_in d (err e) = d

-- An order passes when it is there and waits.
check_order-passes :
    (found : Option ErpOrder) (o : ErpOrder)
    → check_order found ≡ ok o
    → (found ≡ some o) × (o.status ≡ 0)
unfolding check_order row_in
check_order-passes none o = λ h. cc h
check_order-passes (some p) o = elim (Bool-cases (p.status == 0)) [
  | inl e ↦ rw e (λ h.
      let same : p ≡ o = ap (row_in p) h in
      (ap some same, ap (λ (x : ErpOrder). x.status) (sym same) ∙ ground (arith, e)))
  | inr e ↦ rw e (λ h. cc h)
]

-- The ERP's order is marked with a new work order, once and for all.
pub record Converted (id n : ℕ) (w w' : World) : Type 0 where
  pub row : ErpOrder
  pub found : find_row (is_erp_order id) w.erp_orders ≡ some row
  pub waited : row.status ≡ 0
  pub created : Created n w.db w'.db
  pub marked : find_row (is_erp_order id) w'.erp_orders ≡ some (converted n row)
  pub once :
      (env : Store.Env) (remark : ErpOrder → String) (find_product : String → Option Store.Product)
      → convert_erp_order env remark find_product id w' ≡ (w', refused already_converted)

refused_again :
    (env : Store.Env) (remark : ErpOrder → String) (find_product : String → Option Store.Product)
    (id n : ℕ) (row : ErpOrder) (w : World)
    → find_row (is_erp_order id) w.erp_orders ≡ some (converted n row)
    → convert_erp_order env remark find_product id w ≡ (w, refused already_converted)
unfolding convert_erp_order convert_checked check_order
refused_again env remark find_product id n row w h =
    ap (λ o. convert_checked env remark find_product (check_order o) w) h

-- A conversion that answers with the number of a work order: the ERP's order was there and waited, the
-- work orders end with a new one of that number that is not scheduled yet, and the ERP's order is marked
-- with it. Whoever asks again, with whatever product, is refused then and changes nothing.
pub convert_erp_order-Converted :
    (env : Store.Env) (remark : ErpOrder → String) (find_product : String → Option Store.Product)
    (id n : ℕ) (w : World)
    → (convert_erp_order env remark find_product id w).1 ≡ converted_to n
    → Converted id n w (convert_erp_order env remark find_product id w).0
unfolding convert_erp_order
convert_erp_order-Converted env remark find_product id n w h =
    let r = check_order (find_row (is_erp_order id) w.erp_orders) in
    let c = convert_checked-Checked env remark n w find_product r h in
    let p = check_order-passes (find_row (is_erp_order id) w.erp_orders) c.row c.passed in
    let same : c.row.id ≡ id =
      ground (arith, find_row-holds (is_erp_order id) w.erp_orders c.row p.0) in
    let marked : find_row (is_erp_order id)
          (convert_checked env remark find_product r w).0.erp_orders
        ≡ some (converted n c.row) =
      ap (find_row (is_erp_order id)) c.linked.linked
      ∙ ap
          (λ i.
            find_row (is_erp_order id) (update_rows (is_erp_order i) (converted n) w.erp_orders))
          same
      ∙ find-update_rows (is_erp_order id) (converted n) (λ x. refl) w.erp_orders c.row p.0 in
    record {
      row = c.row;
      found = p.0;
      waited = p.1;
      created = c.linked.created;
      marked = marked;
      once = λ env' remark' find'.
          refused_again env' remark' find' id n c.row
            (convert_checked env remark find_product r w).0 marked;
    }
