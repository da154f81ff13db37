-- ===== src/Tests/Dashboards.antt =====
-- The counters of the summary on the database of the examples.
use manufacturing_erp_lite.Prelude.{◌≡◌, refl, ◌+◌, none, List, [], ◌∷◌, true, All}
use manufacturing_erp_lite.Prelude.Decimal.{pos}
use manufacturing_erp_lite.Store.{Db}
use manufacturing_erp_lite.Enums.{PrStatus, PoStatus}
use manufacturing_erp_lite.Inventory.Read.{list_balances}
use manufacturing_erp_lite.Requisition.Read.{list_prs}
use manufacturing_erp_lite.Order.Read.{list_pos}
use manufacturing_erp_lite.Dashboard.{Permission, has_perm, dashboard_summary}
use manufacturing_erp_lite.Dashboard.Counts.{
  HasPair, with_pr_status, with_po_status, below_safety, dashboard_summary-lists,
}
use manufacturing_erp_lite.Tests.Steps.{steps}
use manufacturing_erp_lite.Tests.Data.{keeper}
use manufacturing_erp_lite.Tests.Stock.{received}

-- The stock of the delivery, one of whose two balances is below its safety stock.
abbrev stocked : Db
stocked = record received.1 {
  policies =
      (
        200,
        record {
          warehouse_id = 9;
          material_id = 1;
          safety_stock = pos 900_000_000;
          reorder_point = none;
          max_stock = none;
        },
      )
      ∷ [];
}

abbrev viewer : List Permission
viewer = Permission.pr_view ∷ Permission.po_view ∷ Permission.inventory_view ∷ []

one_is_low : (dashboard_summary viewer stocked keeper).low_stock_count ≡ 1
unfolding dashboard_summary steps
one_is_low = refl

may_view_prs : has_perm viewer Permission.pr_view ≡ true
unfolding has_perm
may_view_prs = refl

may_view_pos : has_perm viewer Permission.po_view ≡ true
unfolding has_perm
may_view_pos = refl

may_view_inventory : has_perm viewer Permission.inventory_view ≡ true
unfolding has_perm
may_view_inventory = refl

stocked-HasPair : All (HasPair stocked) stocked.balances
unfolding HasPair steps
stocked-HasPair = (refl, (refl, tt))

dashboard_summary-lists_example :
    ((dashboard_summary viewer stocked keeper).pending_pr_count
      ≡ (list_prs stocked keeper 1 20 (with_pr_status PrStatus.pending)).1)
    × ((dashboard_summary viewer stocked keeper).pending_po_count
        ≡ (list_pos stocked keeper 1 20 (with_po_status PoStatus.confirmed)).1
          + (list_pos stocked keeper 1 20 (with_po_status PoStatus.partially_received)).1)
    × ((dashboard_summary viewer stocked keeper).low_stock_count
        ≡ (list_balances stocked 1 20 below_safety).1)
dashboard_summary-lists_example =
    dashboard_summary-lists viewer keeper stocked 1 20 may_view_prs may_view_pos may_view_inventory
      stocked-HasPair
