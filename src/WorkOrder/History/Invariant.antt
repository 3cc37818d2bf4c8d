-- ===== src/WorkOrder/History/Invariant.antt =====
-- What holds of the tables after any requests to mes-backend/src/services/WorkOrderService.cc.
use mes_cpp.Base.{
  ℕ, suc, ◌<◌, Bool, false, ◌≡◌, refl, sym, ◌∙◌, some, none, Option, List, [], ◌∷◌, ◌++◌, arith, ℤ,
  pos, String, All, All-mono, All-append, All-update_rows, Distinct, Distinct-append,
  Distinct-update_rows, update_rows,
}
use mes_cpp.WorkOrder.Store.{Order, Operation, Db, Env, end_txn_ok_keeps, is_order}
use mes_cpp.WorkOrder.Transit.{set_status, transit}
use mes_cpp.WorkOrder.Transit.Frame.{transit_cases}
use mes_cpp.WorkOrder.Report.{
  ReportBody, op_matches, report_operation, order_matches, report_order, report_hit, report,
}
use mes_cpp.WorkOrder.Report.Frame.{report_cases}
use mes_cpp.WorkOrder.Report.Totals.{same_order, same_step, sum_completed, Inv, report-Inv}
use mes_cpp.WorkOrder.Orders.{
  CreateBody, UpdateBody, set_fields, insert_operations, insert_order, steps_of, sync_operations,
  create, update,
}
use mes_cpp.WorkOrder.Orders.Effects.{
  insert_operations_lem, insert_operations_rest, create_cases, update_cases,
}
use mes_cpp.WorkOrder.History.{Request, creates, updates, transits, reports, step}
use mes_cpp.WorkOrder.Report.Late.{Rolled, diagnose-Late, refused-Late}
use mes_cpp.WorkOrder.History.NewSteps.{
  same_process_step, select-IsOf, select-Distinct, sort_steps-IsOf, sort_steps-Distinct,
  new_operations-Distinct, new_operations-orders, sum-new_operations, sum-append_zero,
  sum_of_others,
}

-- The invariant of the reports, keys below the sequence of the orders, and steps that are told
-- apart by their place in the process.
pub record WellFormed (db : Db) : Type 0 where
  pub inv : Inv db
  pub order_ids : All (λ o. o.id < db.next_order_id) db.orders
  pub operation_orders : All (λ op. op.work_order_id < db.next_order_id) db.operations
  pub process_steps : Distinct same_process_step db.steps

-- A refusal of the request after its inner UPDATE is rolled back.
abbrev pub RequestRolled : Env → Db → Request → Type 0
RequestRolled env db (creates body) = Unit
RequestRolled env db (updates id body) = Unit
RequestRolled env db (transits id action) = Unit
RequestRolled env db (reports id body) = Rolled env id db (report env id body db).1

module _ (env : Env) (db : Db) (same : env.dropped db db ≡ db) (v : WellFormed db) where
  dropped_same : WellFormed (env.dropped db db)
  dropped_same = rw same v

  new_apart :
      (op : Operation) (news : List Operation)
      → op.work_order_id < db.next_order_id
      → All (λ y. y.work_order_id ≡ db.next_order_id) news
      → All (λ y. same_step op y ≡ false) news
  new_apart op news h a = All-mono news (λ y e. ground arith) a

  created_rows :
      (body : CreateBody) (product process plan : ℤ) (news : List Operation) (d : Db)
      → All (λ y. y.work_order_id ≡ db.next_order_id) news
      → Distinct same_step news
      → ((k : ℕ) → sum_completed k news ≡ pos 0)
      → d.operations ≡ db.operations ++ news
      → d.orders ≡ (insert_order env body product process plan db).orders
      → d.steps ≡ db.steps
      → d.next_order_id ≡ suc db.next_order_id
      → WellFormed d
  created_rows body product process plan news d owner apart sums ops os ss next = record {
    inv = record {
      steps_distinct = rw ops (
          Distinct-append same_step db.operations news v.inv.steps_distinct apart
            (All-mono db.operations (λ op h. new_apart op news h owner) v.operation_orders));
      orders_distinct = rw os (
          Distinct-append same_order db.orders _ v.inv.orders_distinct (tt, tt)
            (All-mono db.orders (λ o h. (ground arith, tt)) v.order_ids));
      totals =
          rw (os, ops)
            (All-append _ db.orders _
              (All-mono db.orders
                (λ o h. h ∙ sym (sum-append_zero o.id db.operations news (sums o.id))) v.inv.totals)
              (
                sym (
                    sum-append_zero db.next_order_id db.operations news (sums db.next_order_id)
                    ∙ sum_of_others db.next_order_id db.operations v.operation_orders),
                tt,
              ));
    };
    order_ids =
        rw (os, next)
          (All-append _ db.orders _ (All-mono db.orders (λ o h. omega arith) v.order_ids)
            (omega arith, tt));
    operation_orders =
        rw (ops, next)
          (All-append _ db.operations news
            (All-mono db.operations (λ op h. omega arith) v.operation_orders)
            (All-mono news (λ op h. omega arith) owner));
    process_steps = rw ss v.process_steps;
  }

  created-WellFormed :
      (body : CreateBody) (product process plan : ℤ)
      → WellFormed (
          insert_operations db.next_order_id plan
            (steps_of process db)
            (insert_order env body product process plan db))
  unfolding steps_of
  created-WellFormed body product process plan =
      created_rows body product process plan _ _ (new_operations-orders _ _ _ _)
        (new_operations-Distinct db.next_operation_id db.next_order_id plan process _
          (sort_steps-IsOf process _ (select-IsOf process db.steps))
          (sort_steps-Distinct _ (select-Distinct _ db.steps v.process_steps)))
        (λ k. sum-new_operations k _ _ _ _)
        (insert_operations_lem db.next_order_id plan (steps_of process db) before)
        (insert_operations_rest db.next_order_id plan (steps_of process db) before).0
        (insert_operations_rest db.next_order_id plan (steps_of process db) before).1
        (insert_operations_rest db.next_order_id plan (steps_of process db) before).2
    where
      before : Db
      before = insert_order env body product process plan db

  create-WellFormed : (body : CreateBody) → WellFormed (create env body db).0
  create-WellFormed body =
      create_cases (λ r. WellFormed r.0) env db body (λ e. v) (λ e. dropped_same)
        (λ product process plan _.
          end_txn_ok_keeps WellFormed env db _ _ v (created-WellFormed body product process plan))

  -- Changes of other columns than the keys and the totals.
  kept :
      (p : Order → Bool) (f : Order → Order)
      → ((o : Order) → (f o).id ≡ o.id)
      → ((o : Order) → (f o).completed_qty ≡ o.completed_qty)
      → WellFormed (record db { orders = update_rows p f db.orders })
  kept p f ids totals = record {
    inv = record {
      steps_distinct = v.inv.steps_distinct;
      orders_distinct =
          Distinct-update_rows p same_order f (λ x y. rw (ids x)) (λ x y. rw (ids y)) db.orders
            v.inv.orders_distinct;
      totals = All-update_rows p f db.orders (λ o _ h. rw (ids o, totals o) h) v.inv.totals;
    };
    order_ids = All-update_rows p f db.orders (λ o _ h. rw (ids o) h) v.order_ids;
    operation_orders = v.operation_orders;
    process_steps = v.process_steps;
  }

  transit-WellFormed : (id : ℕ) (action : String) → WellFormed (transit env id action db).0
  transit-WellFormed id action =
      transit_cases (λ r. WellFormed r.0) env id db action (λ e. v) (λ e. dropped_same)
        (λ event row to _ _ _.
          end_txn_ok_keeps WellFormed env db _ _ v (
            kept (is_order id) (set_status env event to row.completed_qty) (λ o. refl) (λ o. refl)))

  sum-kept :
      (p : Operation → Bool) (plan : ℤ) (k : ℕ) (ops : List Operation)
      → sum_completed k (update_rows p (λ op. record op { plan_qty = plan }) ops)
        ≡ sum_completed k ops
  unfolding sum_completed update_rows
  sum-kept p plan k [] = refl
  sum-kept p plan k (op ∷ ops) = ground (arith, sum-kept p plan k ops)

  replanned :
      (p : Operation → Bool) (plan : ℤ) (d : Db)
      → WellFormed d
      → WellFormed (record d {
        operations = update_rows p (λ op. record op { plan_qty = plan }) d.operations;
      })
  replanned p plan d w = record {
    inv = record {
      steps_distinct =
          Distinct-update_rows p same_step (λ op. record op { plan_qty = plan }) (λ x y. refl)
            (λ x y. refl) d.operations w.inv.steps_distinct;
      orders_distinct = w.inv.orders_distinct;
      totals = All-mono d.orders (λ o h. h ∙ sym (sum-kept p plan o.id d.operations)) w.inv.totals;
    };
    order_ids = w.order_ids;
    operation_orders =
        All-update_rows p (λ op. record op { plan_qty = plan }) d.operations (λ op _ h. h)
          w.operation_orders;
    process_steps = w.process_steps;
  }

  synced :
      (id : ℕ) (plan : Option ℤ) (d : Db)
      → WellFormed d
      → WellFormed (record d { operations = sync_operations id plan d.operations })
  synced id none d w = w
  synced id (some plan) d w = replanned _ plan d w

  update-WellFormed : (id : ℕ) (body : UpdateBody) → WellFormed (update env id body db).0
  update-WellFormed id body =
      update_cases (λ r. WellFormed r.0) env db id body (λ e. dropped_same)
        (λ row _ _. end_txn_ok_keeps WellFormed env db _ _ v (
          synced id body.plan_qty _
            (kept (is_order id) (set_fields env body) (λ o. refl) (λ o. refl))))

  -- The parts of the invariant that are not about quantities.
  abbrev Keys : Db → Type 0
  Keys d =
      All (λ o. o.id < d.next_order_id) d.orders
      × All (λ op. op.work_order_id < d.next_order_id) d.operations
      × Distinct same_process_step d.steps

  keys : Keys db
  keys = (v.order_ids, v.operation_orders, v.process_steps)

  report-Keys :
      (id : ℕ) (body : ReportBody)
      → Rolled env id db (report env id body db).1
      → Keys (report env id body db).0
  unfolding report_hit
  report-Keys id body rolled =
      report_cases (λ r. Rolled env id db r.1 → Keys r.0) env id db body (λ e _. keys)
        (λ e _. rw same keys)
        (λ q e _ _ missed answer back.
          rw (back q (refused-Late e _ (diagnose-Late env id q db missed) answer)) keys)
        (λ q o _ _ _ _ _. end_txn_ok_keeps Keys env db _ _ keys (
          All-update_rows (order_matches id) (report_order env q) db.orders (λ x _ h. h)
              v.order_ids,
          All-update_rows (op_matches id q) (report_operation env q) db.operations (λ x _ h. h)
              v.operation_orders,
          v.process_steps,
        ))
        rolled

  report-WellFormed :
      (id : ℕ) (body : ReportBody)
      → Rolled env id db (report env id body db).1
      → WellFormed (report env id body db).0
  report-WellFormed id body rolled =
      let k = report-Keys id body rolled in
      record {
        inv = report-Inv env id body db same rolled v.inv;
        order_ids = k.0;
        operation_orders = k.1;
        process_steps = k.2;
      }

  -- Every request keeps the tables well formed, where a refusal after an UPDATE is rolled back.
  pub step-WellFormed : (r : Request) → RequestRolled env db r → WellFormed (step db (env, r))
  unfolding step
  step-WellFormed (creates body) h = create-WellFormed body
  step-WellFormed (updates id body) h = update-WellFormed id body
  step-WellFormed (transits id action) h = transit-WellFormed id action
  step-WellFormed (reports id body) h = report-WellFormed id body h
