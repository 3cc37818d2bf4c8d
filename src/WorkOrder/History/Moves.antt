-- ===== src/WorkOrder/History/Moves.antt =====
-- The statuses of the orders move along the table, one request at a time
-- (mes-backend/src/services/WorkOrderService.cc, models/WorkOrderStateMachine.hh).
use mes_cpp.Base.{
  sym, subst, ℕ, Bool, true, false, ◌≡◌, refl, ◌∙◌, inl, inr, List, [], ◌∷◌, ◌++◌, arith,
  Bool-cases, if◌then◌else◌, String, All, All-mono, Distinct, find_row_unique, update_rows,
}
use mes_cpp.WorkOrder.StateMachine.{Event, complete, completed}
use mes_cpp.WorkOrder.StateMachine.Spec.{Allowed}
use mes_cpp.WorkOrder.Store.{Order, Db, Env, end_txn_keeps, is_order}
use mes_cpp.WorkOrder.Transit.{set_status, transit}
use mes_cpp.WorkOrder.Transit.Frame.{transit_cases}
use mes_cpp.WorkOrder.Report.{
  ReportBody, Quantities, order_matches, fills, report_order, report_hit, report,
}
use mes_cpp.WorkOrder.Report.Frame.{report_cases}
use mes_cpp.WorkOrder.Report.Totals.{same_order}
use mes_cpp.WorkOrder.Orders.{CreateBody, UpdateBody, set_fields, create, update}
use mes_cpp.WorkOrder.Orders.Effects.{insert_operations_rest, create_cases, update_cases}
use mes_cpp.WorkOrder.History.{Request, creates, updates, transits, reports, step}

-- Changes that are allowed one after the other, each an event with the status it leads to.
abbrev pub Follows : ℕ → List (Event × ℕ) → ℕ → Type 0
Follows f [] t = f ≡ t
Follows f ((e, g) ∷ es) t = Allowed f e g × Follows g es t

-- Some allowed changes lead from one status to the other.
abbrev pub Reaches : ℕ → ℕ → Type 0
Reaches f t = (es : List (Event × ℕ)) × Follows f es t

Follows-append :
    (f g h : ℕ) (es fs : List (Event × ℕ))
    → Follows f es g
    → Follows g fs h
    → Follows f (es ++ fs) h
Follows-append f g h [] fs p q = subst (λ x. Follows x fs h) (sym p) q
Follows-append f g h ((e, k) ∷ es) fs p q = (p.0, Follows-append k g h es fs p.1 q)

Reaches-refl : (f : ℕ) → Reaches f f
Reaches-refl f = ([], refl)

Reaches-trans : (f g h : ℕ) → Reaches f g → Reaches g h → Reaches f h
Reaches-trans f g h (es, p) (fs, q) = (es ++ fs, Follows-append f g h es fs p q)

Allowed-Reaches : (f : ℕ) (e : Event) (t : ℕ) → Allowed f e t → Reaches f t
Allowed-Reaches f e t h = ((e, t) ∷ [], (h, refl))

-- The same order, later.
abbrev pub Moved : Order → Order → Type 0
Moved x y = (x.id ≡ y.id) × Reaches x.status y.status

-- The orders of a table, later: each one moved, and new ones behind them.
abbrev pub Moves : List Order → List Order → Type 0
Moves [] ys = All (λ y. Reaches 0 y.status) ys
Moves (x ∷ xs) [] = ⊥
Moves (x ∷ xs) (y ∷ ys) = Moved x y × Moves xs ys

pub Moves-refl : (xs : List Order) → Moves xs xs
Moves-refl [] = tt
Moves-refl (x ∷ xs) = ((refl, Reaches-refl x.status), Moves-refl xs)

New-Moves :
    (ys zs : List Order)
    → All (λ y. Reaches 0 y.status) ys
    → Moves ys zs
    → All (λ z. Reaches 0 z.status) zs
New-Moves [] zs n m = m
New-Moves (y ∷ ys) [] n m = tt
New-Moves (y ∷ ys) (z ∷ zs) n m =
    (Reaches-trans 0 y.status z.status n.0 m.0.1, New-Moves ys zs n.1 m.1)

pub Moves-trans : (xs ys zs : List Order) → Moves xs ys → Moves ys zs → Moves xs zs
Moves-trans [] ys zs n m = New-Moves ys zs n m
Moves-trans (x ∷ xs) [] zs n m = absurd n
Moves-trans (x ∷ xs) (y ∷ ys) [] n m = m
Moves-trans (x ∷ xs) (y ∷ ys) (z ∷ zs) n m = (
  (n.0.0 ∙ m.0.0, Reaches-trans x.status y.status z.status n.0.1 m.0.1),
  Moves-trans xs ys zs n.1 m.1,
)

Moves-append : (xs ys : List Order) → All (λ y. Reaches 0 y.status) ys → Moves xs (xs ++ ys)
Moves-append [] ys n = n
Moves-append (x ∷ xs) ys n = ((refl, Reaches-refl x.status), Moves-append xs ys n)

Moves-update_rows :
    (p : Order → Bool) (f : Order → Order) (xs : List Order)
    → All (λ x. p x ≡ true → Moved x (f x)) xs
    → Moves xs (update_rows p f xs)
unfolding update_rows
Moves-update_rows p f [] h = tt
Moves-update_rows p f (x ∷ xs) h = elim (Bool-cases (p x)) [
  | inl e ↦ rw e (h.0 e, Moves-update_rows p f xs h.1)
  | inr e ↦ rw e ((refl, Reaches-refl x.status), Moves-update_rows p f xs h.1)
]

All-any : {P : Order → Type 0} (xs : List Order) → ((x : Order) → P x) → All P xs
All-any [] h = tt
All-any (x ∷ xs) h = (h x, All-any xs h)

-- A transaction that was dropped leaves no trace.
abbrev pub RollsBack : Env → Type 0
RollsBack env = (a b : Db) → env.dropped a b ≡ a

module _ (env : Env) (rollback : RollsBack env) (db : Db) where
  abbrev Later : Db → Type 0
  Later d = Moves db.orders d.orders

  same : Later db
  same = Moves-refl db.orders

  dropped_same : (b : Db) → Later (env.dropped db b)
  dropped_same b = rw (rollback db b) same

  reported-Moved :
      (id : ℕ) (q : Quantities) (x : Order)
      → order_matches id x ≡ true
      → Moved x (report_order env q x)
  reported-Moved id q x m = (refl, ended (fills x.completed_qty q.delta x.plan_qty))
    where
      ended : (b : Bool) → Reaches x.status (if b then completed else x.status)
      ended true = Allowed-Reaches x.status complete completed (ground arith)
      ended false = Reaches-refl x.status

  report-Moves : (id : ℕ) (body : ReportBody) → Later (report env id body db).0
  unfolding report_hit
  report-Moves id body =
      report_cases (λ r. Later r.0) env id db body (λ e. same) (λ e. dropped_same db)
        (λ q e _ _ _ _. dropped_same _)
        (λ q o _ _ _ _. end_txn_keeps Later env db _ same (dropped_same _) (
          Moves-update_rows (order_matches id) (report_order env q) db.orders
            (All-any db.orders (reported-Moved id q))))

  transit-Moves :
      (id : ℕ) (action : String)
      → Distinct same_order db.orders
      → Later (transit env id action db).0
  transit-Moves id action d =
      transit_cases (λ r. Later r.0) env id db action (λ e. same) (λ e. dropped_same db)
        (λ event row to _ found allowed. end_txn_keeps Later env db _ same (dropped_same _) (
          Moves-update_rows (is_order id) (set_status env event to row.completed_qty) db.orders (
            All-mono db.orders
              (λ x only m. (refl, rw (only m) (Allowed-Reaches row.status event to allowed)))
              (find_row_unique same_order (is_order id) (λ x y a b. ground arith) db.orders row d
                found))))

  create-Moves : (body : CreateBody) → Later (create env body db).0
  create-Moves body =
      create_cases (λ r. Later r.0) env db body (λ e. same) (λ e. dropped_same db)
        (λ product process plan _.
          end_txn_keeps Later env db _ same (dropped_same _) (
            rw ((insert_operations_rest _ _ _ _).0)
              (Moves-append db.orders _ (Reaches-refl 0, tt))))

  update-Moves : (id : ℕ) (body : UpdateBody) → Later (update env id body db).0
  update-Moves id body =
      update_cases (λ r. Later r.0) env db id body (λ e. dropped_same db)
        (λ row _ _. end_txn_keeps Later env db _ same (dropped_same _) (
          Moves-update_rows (is_order id) (set_fields env body) db.orders
            (All-any db.orders (λ x _. (refl, Reaches-refl x.status)))))

  -- One request moves every order along the table, if at all, and adds only orders that have not
  -- been scheduled yet.
  pub step-Moves : (r : Request) → Distinct same_order db.orders → Later (step db (env, r))
  unfolding step
  step-Moves (creates body) d = create-Moves body
  step-Moves (updates id body) d = update-Moves id body
  step-Moves (transits id action) d = transit-Moves id action d
  step-Moves (reports id body) d = report-Moves id body
