-- ===== src/Integration/ErpOrders/Synced.antt =====
-- What a synchronisation does to the orders of the ERP (mes-backend/src/services/IntegrationService.cc).
use text.Mathlib.Text.{◌==◌ as str_eq}
use mathlib.Core.List.{append_assoc, append-nil}
use mes_cpp.Base.{
  ◌+◌, ◌≡◌, refl, ap, sym, ◌∙◌, inl, inr, Bool, List, [], ◌∷◌, ◌++◌, arith, ℤ, pos, map, length,
  length-append, length-update_rows, any_row, any_row-All, update_rows, All-mono, Distinct,
  Distinct-append, Distinct-update_rows, Bool-cases,
}
use mes_cpp.Integration.ErpOrders.{
  ErpOrder, Incoming, Sync, has_no, refreshed, new_erp_order, upsert, sync_orders,
}

-- All of a row but its quantity.
abbrev pub frozen : ErpOrder → ErpOrder
frozen o = record o { quantity = pos 0 }

abbrev same_no : ErpOrder → ErpOrder → Bool
same_no a b = str_eq a.erp_order_no b.erp_order_no

-- A synchronisation from one state of the table to another.
pub record Synced (s s' : Sync) : Type 0 where
  -- the rows that were there, in their order, and then new ones
  pub added : List ErpOrder
  pub kept : map frozen s'.rows ≡ map frozen s.rows ++ added
  pub apart : Distinct same_no s.rows → Distinct same_no s'.rows
  pub counts : s'.total + s.inserted + s.updated ≡ s.total + s'.inserted + s'.updated
  pub grows : length s'.rows + s.inserted ≡ length s.rows + s'.inserted

Synced-refl : (s : Sync) → Synced s s
Synced-refl s = record {
  added = [];
  kept = sym (append-nil (map frozen s.rows));
  apart = λ d. d;
  counts = omega arith;
  grows = refl;
}

Synced-trans : (a b c : Sync) → Synced a b → Synced b c → Synced a c
Synced-trans a b c h k = record {
  added = h.added ++ k.added;
  kept =
      k.kept ∙ ap (λ xs. xs ++ k.added) h.kept ∙ append_assoc (map frozen a.rows) h.added k.added;
  apart = λ d. k.apart (h.apart d);
  counts = omega (arith, h.counts, k.counts);
  grows = omega (arith, h.grows, k.grows);
}

map-update_rows :
    (p : ErpOrder → Bool) (q : ℤ) (rows : List ErpOrder)
    → map frozen (update_rows p (refreshed q) rows) ≡ map frozen rows
unfolding update_rows
map-update_rows p q [] = refl
map-update_rows p q (o ∷ os) = elim (Bool-cases (p o)) [
  | inl e ↦ rw e (ap (λ xs. frozen o ∷ xs) (map-update_rows p q os))
  | inr e ↦ rw e (ap (λ xs. frozen o ∷ xs) (map-update_rows p q os))
]

map-append : (xs ys : List ErpOrder) → map frozen (xs ++ ys) ≡ map frozen xs ++ map frozen ys
map-append [] ys = refl
map-append (x ∷ xs) ys = ap (λ zs. frozen x ∷ zs) (map-append xs ys)

upsert-Synced : (i : Incoming) (s : Sync) → Synced s (upsert i s)
unfolding upsert
upsert-Synced i s = elim (Bool-cases (any_row (has_no i.order_no) s.rows)) [
  | inl e ↦ rw e (record {
    added = [];
    kept =
        map-update_rows (has_no i.order_no) i.quantity s.rows
        ∙ sym (append-nil (map frozen s.rows));
    apart =
        Distinct-update_rows (has_no i.order_no) same_no (refreshed i.quantity) (λ x y. refl)
          (λ x y. refl) s.rows;
    counts = omega arith;
    grows = omega (arith, length-update_rows (has_no i.order_no) (refreshed i.quantity) s.rows);
  })
  | inr e ↦ rw e (record {
    added = map frozen (new_erp_order s.next_id i ∷ []);
    kept = map-append s.rows (new_erp_order s.next_id i ∷ []);
    apart = λ d.
        Distinct-append same_no s.rows (new_erp_order s.next_id i ∷ []) d (tt, tt)
          (All-mono s.rows (λ x h. (h, tt)) (any_row-All (has_no i.order_no) s.rows e));
    counts = omega arith;
    grows = omega (arith, length-append s.rows (new_erp_order s.next_id i ∷ []));
  })
]

-- A synchronisation of any orders keeps all rows in their order and with all they have but the quantity, so
-- that a converted order stays converted, and appends new ones; if no two rows had one number, no two have
-- then; the total that it counts is that of the inserted and the updated, and there are as many more rows
-- as it counts as inserted.
pub sync_orders-Synced : (is : List Incoming) (s : Sync) → Synced s (sync_orders is s)
unfolding sync_orders
sync_orders-Synced [] s = Synced-refl s
sync_orders-Synced (i ∷ is) s = elim (Bool-cases (str_eq i.order_no "")) [
  | inl e ↦ rw e (sync_orders-Synced is s)
  | inr e ↦ rw e (
      Synced-trans s (upsert i s) (sync_orders is (upsert i s)) (upsert-Synced i s)
        (sync_orders-Synced is (upsert i s)))
]
