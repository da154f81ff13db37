-- ===== src/Receipt/Rounds.antt =====
-- The two loops over the lines keep what `LinesInv` says
-- (backend/app/services/purchase_receipt_service.py).
use manufacturing_erp_lite.Prelude.{ℕ, ◌≡◌, refl, ap, ◌∙◌, subst, List, [], ◌∷◌, suc, nat_eq}
use manufacturing_erp_lite.Prelude.Decimal.{ -ℤ_neg}
use manufacturing_erp_lite.Prelude.Assoc.{Assoc}
use manufacturing_erp_lite.Errors.{ok, ok-injective, found-eq-ok, guard-eq-ok, >>=-eq-ok}
use manufacturing_erp_lite.Store.{Db, InventoryTransaction, PurchaseReceiptItem}
use manufacturing_erp_lite.Inventory.{Key}
use manufacturing_erp_lite.Inventory.Posting.{inbound, outbound}
use manufacturing_erp_lite.Receipt.Defs.{ReceiptItemIn, LineState}
use manufacturing_erp_lite.Receipt.Create.{Posting, receive_line, receive_lines}
use manufacturing_erp_lite.Receipt.Reverse.{reverse_line, reverse_lines}
use manufacturing_erp_lite.Receipt.Frame.{set_received-stock, cas_receive-stock, cas_return-stock}
use manufacturing_erp_lite.Receipt.Lines.{LinesInv, round-LinesInv}

module _ (start : Db) (keys : List Key) (p : Posting) where
  receive_line-LinesInv :
      (line_no : ℕ) (item : ReceiptItemIn) (st : LineState) {st' : LineState}
      → LinesInv inbound start keys st
      → receive_line p line_no item st ≡ ok st'
      → LinesInv inbound start keys st'
  unfolding receive_line
  receive_line-LinesInv line_no item st inv h =
      let (poi, _, h1) = found-eq-ok _ _ _ h in
      let (claimed, c, h2) = found-eq-ok _ _ _ h1 in
      let same = cas_receive-stock _ _ _ c in
      let (before, b, h3) = found-eq-ok _ _ _ h2 in
      let (written, w, h4) = >>=-eq-ok _ _ h3 in
      let (agg, a, h5) = >>=-eq-ok _ _ h4 in
      subst (LinesInv inbound start keys) (ok-injective h5) (
        round-LinesInv inbound start keys st _ _ before _ _ _ inv
          (ap (λ s. s.0) (set_received-stock _ _ claimed ∙ same))
          (ap (λ s. s.1) (set_received-stock _ _ claimed ∙ same)) b refl refl refl refl written _
          agg w a)

  pub receive_lines-LinesInv :
      (line_no : ℕ) (items : List ReceiptItemIn) (st : LineState) {st' : LineState}
      → LinesInv inbound start keys st
      → receive_lines p line_no items st ≡ ok st'
      → LinesInv inbound start keys st'
  unfolding receive_lines
  receive_lines-LinesInv line_no [] st inv h =
      subst (LinesInv inbound start keys) (ok-injective h) inv
  receive_lines-LinesInv line_no (item ∷ items) st inv h =
      let (st', e, rest) = >>=-eq-ok _ _ h in
      receive_lines-LinesInv (suc line_no) items st' (receive_line-LinesInv line_no item st inv e)
        rest

  module _ (ledger : Assoc ℕ InventoryTransaction) where
    reverse_line-LinesInv :
        (i : ℕ) (ri : PurchaseReceiptItem) (st : LineState) {st' : LineState}
        → LinesInv outbound start keys st
        → reverse_line p ledger i ri st ≡ ok st'
        → LinesInv outbound start keys st'
    unfolding reverse_line
    reverse_line-LinesInv i ri st inv h =
        let (poi, _, h1) = found-eq-ok _ _ _ h in
        let (claimed, c, h2) = found-eq-ok _ _ _ h1 in
        let same = cas_return-stock _ _ _ c in
        let (original, _, h3) = found-eq-ok _ _ _ h2 in
        let (_, h4) = guard-eq-ok _ _ _ h3 in
        let (before, b, h5) = found-eq-ok _ _ _ h4 in
        let (written, w, h6) = >>=-eq-ok _ _ h5 in
        let (agg, a, h7) = >>=-eq-ok _ _ h6 in
        subst (LinesInv outbound start keys) (ok-injective h7) (
          round-LinesInv outbound start keys st _ _ before _ _ _ inv
            (ap (λ s. s.0) (set_received-stock _ _ claimed ∙ same))
            (ap (λ s. s.1) (set_received-stock _ _ claimed ∙ same)) b refl (-ℤ_neg _ _) refl refl
            written _ agg w a)

    pub reverse_lines-LinesInv :
        (rows : List (ℕ × PurchaseReceiptItem)) (st : LineState) {st' : LineState}
        → LinesInv outbound start keys st
        → reverse_lines p ledger rows st ≡ ok st'
        → LinesInv outbound start keys st'
    unfolding reverse_lines
    reverse_lines-LinesInv [] st inv h = subst (LinesInv outbound start keys) (ok-injective h) inv
    reverse_lines-LinesInv ((i, ri) ∷ rows) st inv h =
        let (st', e, rest) = >>=-eq-ok _ _ h in
        reverse_lines-LinesInv rows st' (reverse_line-LinesInv i ri st inv e) rest
