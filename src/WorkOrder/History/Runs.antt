-- ===== src/WorkOrder/History/Runs.antt =====
-- What holds after any sequence of requests (mes-backend/src/services/WorkOrderService.cc).
use mes_cpp.Base.{◌≡◌, ◌⊎◌, inl, inr, List, [], ◌∷◌, All}
use mes_cpp.WorkOrder.Store.{Db, Env}
use mes_cpp.WorkOrder.History.{Request, creates, updates, transits, reports, step, run}
use mes_cpp.WorkOrder.History.Moves.{RollsBack, Moves, Moves-refl, Moves-trans, step-Moves}
use mes_cpp.WorkOrder.History.Invariant.{WellFormed, RequestRolled, step-WellFormed}
use mes_cpp.WorkOrder.Report.{report}
use mes_cpp.WorkOrder.Report.Late.{Late}

-- A dropped transaction is either rolled back or committed.
abbrev pub Drops : Env → Type 0
Drops env = (a b : Db) → (env.dropped a b ≡ a) ⊎ (env.dropped a b ≡ b)

-- The request is no report that is refused since the order is not found or not in progress.
abbrev pub IsTimely : Env → Db → Request → Type 0
IsTimely env db (creates body) = Unit
IsTimely env db (updates id body) = Unit
IsTimely env db (transits id action) = Unit
IsTimely env db (reports id body) = ¬ Late (report env id body db).1

-- No request of the run is such a report, each on the tables that it finds.
abbrev pub AllTimely : Db → List (Env × Request) → Type 0
AllTimely db [] = Unit
AllTimely db ((env, r) ∷ rs) = IsTimely env db r × AllTimely (step db (env, r)) rs

Drops-same : (env : Env) (db : Db) → Drops env → env.dropped db db ≡ db
Drops-same env db d = elim (d db db) [ inl e ↦ e | inr e ↦ e ]

timely-RequestRolled :
    (env : Env) (db : Db) (r : Request) → IsTimely env db r → RequestRolled env db r
timely-RequestRolled env db (creates body) h = tt
timely-RequestRolled env db (updates id body) h = tt
timely-RequestRolled env db (transits id action) h = tt
timely-RequestRolled env db (reports id body) h = λ q late. absurd (h late)

RollsBack-RequestRolled :
    (env : Env) (db : Db) (r : Request) → RollsBack env → RequestRolled env db r
RollsBack-RequestRolled env db (creates body) h = tt
RollsBack-RequestRolled env db (updates id body) h = tt
RollsBack-RequestRolled env db (transits id action) h = tt
RollsBack-RequestRolled env db (reports id body) h = λ q late. h db _

-- From well-formed tables, after any requests of which none is a report that is refused since the order is
-- not found or not in progress, each order's total is the sum of what its operations have completed, an
-- order and a step of an order have one row each, as does a step of a process, and the keys of orders are
-- below their sequence; whether COMMIT succeeds or not, and whether a dropped transaction is rolled back or
-- committed.
pub run-WellFormed :
    (db : Db) (rs : List (Env × Request))
    → All (λ r. Drops r.0) rs
    → AllTimely db rs
    → WellFormed db
    → WellFormed (run db rs)
unfolding run
run-WellFormed db [] d h v = v
run-WellFormed db ((env, r) ∷ rs) d h v =
    run-WellFormed (step db (env, r)) rs d.1 h.1
      (step-WellFormed env db (Drops-same env db d.0) v r (timely-RequestRolled env db r h.0))

-- From well-formed tables, and with dropped transactions rolled back, any requests leave every order
-- in its place with its key and move it along the table of status changes, and the orders they add
-- have a status that a pending order reaches.
pub run-Moves :
    (db : Db) (rs : List (Env × Request))
    → All (λ r. RollsBack r.0) rs
    → WellFormed db
    → Moves db.orders (run db rs).orders
unfolding run
run-Moves db [] h v = Moves-refl db.orders
run-Moves db ((env, r) ∷ rs) h v =
    Moves-trans db.orders (step db (env, r)).orders (run (step db (env, r)) rs).orders
      (step-Moves env h.0 db r v.inv.orders_distinct)
      (run-Moves (step db (env, r)) rs h.1
        (step-WellFormed env db (h.0 db db) v r (RollsBack-RequestRolled env db r h.0)))
