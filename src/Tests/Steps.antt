-- ===== src/Tests/Steps.antt =====
-- What the examples let compute: every step of the services.
use manufacturing_erp_lite.Prelude.Assoc.{get, set, erase, update, update_where}
use manufacturing_erp_lite.Prelude.Decimal.{◌+ℤ◌, ◌-ℤ◌, neg, ◌*ℤ◌, ltb_ℤ, leb_ℤ, eqb_ℤ}
use manufacturing_erp_lite.Errors.{raise_if, or_raise, ◌>>=◌, ◌>>◌}
use manufacturing_erp_lite.Money.{
  quantize_half_up, half_even, quantize_half_even, last_digit, prec_28, in_context, money,
  unit_cost, line_amount, sum_amounts,
}
use manufacturing_erp_lite.Numbering.{next_sequence_value, next_code, next_daily_code}
use manufacturing_erp_lite.Audit.{write_audit}
use manufacturing_erp_lite.Inventory.{insert_key, sort_keys}
use manufacturing_erp_lite.Inventory.{
  lock_balance, lock_each, lock_balances, new_average, apply_inbound, apply_outbound,
  append_transaction, write_transaction,
}
use manufacturing_erp_lite.Receipt.Defs.{
  receivable_po, active_warehouse, assert_material_active, check_items, load_items, insert_item,
  sort_items, set_received, cas_receive, cas_return, add_delta, locked_quantities, no_deltas,
  apply_deltas,
}
use manufacturing_erp_lite.Receipt.Status.{
  items_of, derived_status, set_po_status, recompute_po_status,
}
use manufacturing_erp_lite.Receipt.Create.{
  receive_line, receive_lines, add_receipt, post_receipt, create_receipt,
}
use manufacturing_erp_lite.Receipt.Reverse.{
  claim_reversal, insert_row, rows_of, find_original, is_reversed, reverse_line, reverse_lines,
  recompute_if_found, post_reversal, reverse_receipt,
}
use manufacturing_erp_lite.Order.Defs.{
  load_po, assert_po_transition, assert_po_version, assert_buyer_or_admin, concurrent_po_error,
  assert_supplier_active, assert_po_material_active, load_sources, load_pr_ids, check_prs,
  check_order_items, cas_convert, cas_unconvert, has_unconverted, flip_pr_to_converted,
  flip_pr_back_to_approved, flip_each,
}
use manufacturing_erp_lite.Order.Create.{
  add_po, add_order_item, add_source, take_sources, add_lines, set_total, create_po,
}
use manufacturing_erp_lite.Order.Status.{
  claim_po, flush_po, confirm_po, sources_of, give_back, pr_ids_of, cancel_po,
}
use manufacturing_erp_lite.Reconciliation.Draft.{
  add_doc, add_items, create_reconciliation, claim_doc, submit_reconciliation,
  reject_reconciliation,
}
use manufacturing_erp_lite.Reconciliation.Approve.{
  self_approval, check_doc_items, moving, snapshot_guard, adjust, post_moving, post_items,
  approve_reconciliation,
}
use manufacturing_erp_lite.Requisition.Defs.{
  load_pr, assert_pr_transition, assert_pr_material_active, assert_self_or_admin, assert_approver,
  assert_pr_version, concurrent_pr_error, assert_user_department_active, pr_items,
  assert_items_active, set_estimated, recompute_items, recompute, claim_pr, flush_pr,
}
use manufacturing_erp_lite.Requisition.Create.{add_pr, add_pr_items, set_pr_total, create_pr}
use manufacturing_erp_lite.Requisition.Status.{submit_pr, has_active_po, cancel_pr}
use manufacturing_erp_lite.Requisition.Approval.{
  approval_record, check_pr_items, approve_pr, reject_pr, clear_submitted, revise_pr,
}
use manufacturing_erp_lite.Query.{where_rows, order_by, offset, limit, page_of, paged}
use manufacturing_erp_lite.Requisition.Edit.{
  sync_items, flush_existing, flush_added, remaining, flush_items, set_pr_version, update_pr,
}
use manufacturing_erp_lite.Requisition.Read.{get_pr, visible_pr_condition, listed_prs, list_prs}
use manufacturing_erp_lite.Reconciliation.Edit.{
  existing_line, rebuild_line, rebuild_lines, flush_rebuilt, delete_orphans, replace_items,
  claim_edit, flush_doc, update_reconciliation,
}
use manufacturing_erp_lite.Order.Read.{
  source_visibility_cond, has_visible_source, visible_po_id, assert_po_visible, get_po, listed_pos,
  list_pos,
}
use manufacturing_erp_lite.Receipt.Read.{
  visible_po, assert_receipt_visible, get_receipt, listed_receipts, list_receipts,
}
use manufacturing_erp_lite.Inventory.Read.{
  safety_of, joined, listed_balances, list_balances, listed_transactions, list_transactions,
  get_balance,
}
use manufacturing_erp_lite.Reconciliation.Read.{
  get_reconciliation, listed_docs, count_items, counts_of, list_reconciliations,
}
use manufacturing_erp_lite.Master.Materials.{
  get_material, add_material, create_material, update_material, set_material_status,
  disable_material, enable_material, listed_materials, list_materials,
}
use manufacturing_erp_lite.Master.Suppliers.{
  get_supplier, add_supplier, create_supplier, update_supplier, set_supplier_status,
  disable_supplier, enable_supplier, listed_suppliers, list_suppliers,
}
use manufacturing_erp_lite.Master.Warehouses.{
  get_warehouse, add_warehouse, create_warehouse, update_warehouse, set_warehouse_status,
  nonzero_balances, assert_no_stock, disable_warehouse, enable_warehouse, listed_warehouses,
  list_warehouses,
}
use manufacturing_erp_lite.Master.Policies.{
  get_policy, validate_ranges, validate_refs, has_policy, check_duplicate, insert_policy,
  create_policy, update_policy, listed_policies, list_policies,
}
use manufacturing_erp_lite.Reconciliation.Defs
use manufacturing_erp_lite.Inventory.Book.{book, ledger_sum}

-- Opening this opens all of them.
unfoldable pub steps : Unit {0}
unfolding get set erase update update_where ◌+ℤ◌ ◌-ℤ◌ neg ◌*ℤ◌ ltb_ℤ leb_ℤ eqb_ℤ raise_if or_raise
    ◌>>=◌ ◌>>◌ quantize_half_up half_even quantize_half_even last_digit prec_28 in_context money
    unit_cost line_amount sum_amounts next_sequence_value next_code next_daily_code write_audit
    insert_key sort_keys lock_balance lock_each lock_balances new_average apply_inbound
    apply_outbound append_transaction write_transaction receivable_po active_warehouse
    assert_material_active check_items load_items insert_item sort_items set_received cas_receive
    cas_return add_delta locked_quantities no_deltas apply_deltas items_of derived_status
    set_po_status recompute_po_status receive_line receive_lines add_receipt post_receipt
    create_receipt claim_reversal insert_row rows_of find_original is_reversed reverse_line
    reverse_lines recompute_if_found post_reversal reverse_receipt load_po assert_po_transition
    assert_po_version assert_buyer_or_admin concurrent_po_error assert_supplier_active
    assert_po_material_active load_sources load_pr_ids check_prs check_order_items cas_convert
    cas_unconvert has_unconverted flip_pr_to_converted flip_pr_back_to_approved flip_each add_po
    add_order_item add_source take_sources add_lines set_total create_po claim_po flush_po
    confirm_po sources_of give_back pr_ids_of cancel_po add_doc add_items create_reconciliation
    claim_doc submit_reconciliation reject_reconciliation self_approval check_doc_items moving
    snapshot_guard adjust post_moving post_items approve_reconciliation load_pr assert_pr_transition
    assert_pr_material_active assert_self_or_admin assert_approver assert_pr_version
    concurrent_pr_error assert_user_department_active pr_items assert_items_active set_estimated
    recompute_items recompute claim_pr flush_pr add_pr add_pr_items set_pr_total create_pr submit_pr
    has_active_po cancel_pr approval_record check_pr_items approve_pr reject_pr clear_submitted
    revise_pr where_rows order_by offset limit page_of paged sync_items flush_existing flush_added
    remaining flush_items set_pr_version update_pr get_pr visible_pr_condition listed_prs list_prs
    existing_line rebuild_line rebuild_lines flush_rebuilt delete_orphans replace_items claim_edit
    flush_doc update_reconciliation source_visibility_cond has_visible_source visible_po_id
    assert_po_visible get_po listed_pos list_pos visible_po assert_receipt_visible get_receipt
    listed_receipts list_receipts safety_of joined listed_balances list_balances listed_transactions
    list_transactions get_balance get_reconciliation listed_docs count_items counts_of
    list_reconciliations get_material add_material create_material update_material
    set_material_status disable_material enable_material listed_materials list_materials
    get_supplier add_supplier create_supplier update_supplier set_supplier_status disable_supplier
    enable_supplier listed_suppliers list_suppliers get_warehouse add_warehouse create_warehouse
    update_warehouse set_warehouse_status nonzero_balances assert_no_stock disable_warehouse
    enable_warehouse listed_warehouses list_warehouses get_policy validate_ranges validate_refs
    has_policy check_duplicate insert_policy create_policy update_policy listed_policies
    list_policies Defs.load_doc Defs.active_warehouse Defs.assert_material_active Defs.watermark
    Defs.snapshot Defs.q4 Defs.surplus_amount Defs.amount_for Defs.check_lines Defs.ensure_valid
    Defs.doc_items book ledger_sum
steps = tt
