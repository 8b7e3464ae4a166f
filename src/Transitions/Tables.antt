-- ===== src/Transitions/Tables.antt =====
-- packages/core/src/procurement/{purchase-order,supplier-invoice,expense,credit-note,vendor-contract,rfq}/
-- transitions.ts: the tables of the services.
use fun_makers_system.Base.{Option, none, some, List, [], ◌∷◌}
use fun_makers_system.Data.Records.{RecordType, RecordStatus, RecordAction}
use fun_makers_system.Transitions.{Machine}

-- `PO_ACTION_TO_STATUS`
abbrev pub po_target : RecordAction → Option RecordStatus
po_target RecordAction.submit = some RecordStatus.submitted
po_target RecordAction.approve = some RecordStatus.approved
po_target RecordAction.reject = some RecordStatus.rejected
po_target RecordAction.return = some RecordStatus.returned
po_target RecordAction.issue = some RecordStatus.issued
po_target RecordAction.partial_deliver = some RecordStatus.partially_delivered
po_target RecordAction.deliver = some RecordStatus.delivered
po_target RecordAction.cancel = some RecordStatus.cancelled
po_target RecordAction.close = some RecordStatus.closed
po_target _ = none

-- `PO_TRANSITIONS`
abbrev pub po_allowed : RecordStatus → List RecordStatus
po_allowed RecordStatus.draft = RecordStatus.submitted ∷ []
po_allowed RecordStatus.submitted =
    RecordStatus.approved ∷ RecordStatus.rejected ∷ RecordStatus.returned ∷ []
po_allowed RecordStatus.returned = RecordStatus.submitted ∷ RecordStatus.cancelled ∷ []
po_allowed RecordStatus.approved = RecordStatus.issued ∷ RecordStatus.cancelled ∷ []
po_allowed RecordStatus.issued =
    RecordStatus.partially_delivered ∷ RecordStatus.delivered ∷ RecordStatus.cancelled ∷ []
po_allowed RecordStatus.partially_delivered = RecordStatus.delivered ∷ []
po_allowed RecordStatus.delivered = RecordStatus.closed ∷ []
po_allowed _ = []

-- `PO_APPROVED_PLUS_STATUSES`
abbrev pub po_approved_plus : List RecordStatus
po_approved_plus =
    RecordStatus.approved ∷ RecordStatus.issued ∷ RecordStatus.partially_delivered
    ∷ RecordStatus.delivered ∷ RecordStatus.closed ∷ []

abbrev pub po_machine : Machine
po_machine = record {
  kind = RecordType.purchase_order;
  target = po_target;
  allowed = po_allowed;
  terminal = RecordStatus.rejected ∷ RecordStatus.cancelled ∷ RecordStatus.closed ∷ [];
  managed = RecordAction.approve ∷ RecordAction.reject ∷ RecordAction.return ∷ [];
}

-- `SI_ACTION_TO_STATUS`
abbrev pub si_target : RecordAction → Option RecordStatus
si_target RecordAction.review = some RecordStatus.under_review
si_target RecordAction.approve = some RecordStatus.approved
si_target RecordAction.reject = some RecordStatus.rejected
si_target RecordAction.dispute = some RecordStatus.disputed
si_target RecordAction.pay = some RecordStatus.paid
si_target RecordAction.close = some RecordStatus.closed
si_target _ = none

-- `SI_TRANSITIONS`
abbrev pub si_allowed : RecordStatus → List RecordStatus
si_allowed RecordStatus.received = RecordStatus.under_review ∷ []
si_allowed RecordStatus.under_review =
    RecordStatus.approved ∷ RecordStatus.disputed ∷ RecordStatus.rejected ∷ []
si_allowed RecordStatus.approved = RecordStatus.paid ∷ []
si_allowed RecordStatus.disputed = RecordStatus.under_review ∷ RecordStatus.rejected ∷ []
si_allowed RecordStatus.paid = RecordStatus.closed ∷ []
si_allowed _ = []

-- `SI_APPROVED_PLUS_STATUSES`
abbrev pub si_approved_plus : List RecordStatus
si_approved_plus = RecordStatus.approved ∷ RecordStatus.paid ∷ RecordStatus.closed ∷ []

abbrev pub si_machine : Machine
si_machine = record {
  kind = RecordType.supplier_invoice;
  target = si_target;
  allowed = si_allowed;
  terminal = RecordStatus.rejected ∷ RecordStatus.closed ∷ [];
  managed = RecordAction.approve ∷ RecordAction.reject ∷ RecordAction.dispute ∷ [];
}

-- `EXPENSE_ACTION_TO_STATUS`
abbrev pub expense_target : RecordAction → Option RecordStatus
expense_target RecordAction.submit = some RecordStatus.submitted
expense_target RecordAction.approve = some RecordStatus.approved
expense_target RecordAction.reject = some RecordStatus.rejected
expense_target RecordAction.return = some RecordStatus.returned
expense_target RecordAction.pay = some RecordStatus.paid
expense_target RecordAction.cancel = some RecordStatus.cancelled
expense_target RecordAction.close = some RecordStatus.closed
expense_target _ = none

-- `EXPENSE_TRANSITIONS`
abbrev pub expense_allowed : RecordStatus → List RecordStatus
expense_allowed RecordStatus.draft = RecordStatus.submitted ∷ []
expense_allowed RecordStatus.submitted =
    RecordStatus.approved ∷ RecordStatus.rejected ∷ RecordStatus.returned ∷ []
expense_allowed RecordStatus.returned = RecordStatus.submitted ∷ []
expense_allowed RecordStatus.approved = RecordStatus.paid ∷ RecordStatus.cancelled ∷ []
expense_allowed RecordStatus.paid = RecordStatus.closed ∷ []
expense_allowed _ = []

-- `EXPENSE_APPROVED_PLUS_STATUSES`
abbrev pub expense_approved_plus : List RecordStatus
expense_approved_plus = RecordStatus.approved ∷ RecordStatus.paid ∷ RecordStatus.closed ∷ []

abbrev pub expense_machine : Machine
expense_machine = record {
  kind = RecordType.expense;
  target = expense_target;
  allowed = expense_allowed;
  terminal = RecordStatus.rejected ∷ RecordStatus.cancelled ∷ RecordStatus.closed ∷ [];
  managed = RecordAction.approve ∷ RecordAction.reject ∷ RecordAction.return ∷ [];
}

-- `CN_ACTION_TO_STATUS`
abbrev pub cn_target : RecordAction → Option RecordStatus
cn_target RecordAction.verify = some RecordStatus.verified
cn_target RecordAction.apply = some RecordStatus.applied
cn_target RecordAction.dispute = some RecordStatus.disputed
cn_target RecordAction.cancel = some RecordStatus.cancelled
cn_target RecordAction.close = some RecordStatus.closed
cn_target _ = none

-- `CN_TRANSITIONS`
abbrev pub cn_allowed : RecordStatus → List RecordStatus
cn_allowed RecordStatus.received = RecordStatus.verified ∷ []
cn_allowed RecordStatus.verified =
    RecordStatus.applied ∷ RecordStatus.disputed ∷ RecordStatus.cancelled ∷ []
cn_allowed RecordStatus.applied = RecordStatus.closed ∷ []
cn_allowed RecordStatus.disputed = RecordStatus.verified ∷ RecordStatus.cancelled ∷ []
cn_allowed _ = []

-- A credit note has no actions that only the workflow engine performs.
abbrev pub cn_machine : Machine
cn_machine = record {
  kind = RecordType.credit_note;
  target = cn_target;
  allowed = cn_allowed;
  terminal = RecordStatus.closed ∷ RecordStatus.cancelled ∷ [];
  managed = [];
}

-- `ACTION_TO_STATUS` of vendor contracts.
abbrev pub vendor_contract_target : RecordAction → Option RecordStatus
vendor_contract_target RecordAction.submit = some RecordStatus.under_review
vendor_contract_target RecordAction.approve = some RecordStatus.approved_internal
vendor_contract_target RecordAction.reject = some RecordStatus.rejected
vendor_contract_target RecordAction.return = some RecordStatus.returned
vendor_contract_target RecordAction.sign = some RecordStatus.signed
vendor_contract_target RecordAction.activate = some RecordStatus.active
vendor_contract_target RecordAction.terminate = some RecordStatus.terminated
vendor_contract_target RecordAction.supersede = some RecordStatus.superseded
vendor_contract_target RecordAction.expire = some RecordStatus.expired
vendor_contract_target _ = none

-- `VENDOR_CONTRACT_TRANSITIONS`
abbrev pub vendor_contract_allowed : RecordStatus → List RecordStatus
vendor_contract_allowed RecordStatus.draft = RecordStatus.under_review ∷ []
vendor_contract_allowed RecordStatus.under_review =
    RecordStatus.approved_internal ∷ RecordStatus.returned ∷ RecordStatus.rejected ∷ []
vendor_contract_allowed RecordStatus.returned = RecordStatus.under_review ∷ []
vendor_contract_allowed RecordStatus.approved_internal = RecordStatus.signed ∷ []
vendor_contract_allowed RecordStatus.signed = RecordStatus.active ∷ []
vendor_contract_allowed RecordStatus.active =
    RecordStatus.expired ∷ RecordStatus.terminated ∷ RecordStatus.superseded ∷ []
vendor_contract_allowed _ = []

-- Nor has a vendor contract such actions.
abbrev pub vendor_contract_machine : Machine
vendor_contract_machine = record {
  kind = RecordType.vendor_contract;
  target = vendor_contract_target;
  allowed = vendor_contract_allowed;
  terminal =
      RecordStatus.rejected ∷ RecordStatus.expired ∷ RecordStatus.terminated
      ∷ RecordStatus.superseded ∷ [];
  managed = [];
}

-- `ACTION_TO_STATUS` of requests for quotation.
abbrev pub rfq_target : RecordAction → Option RecordStatus
rfq_target RecordAction.submit = some RecordStatus.under_review
rfq_target RecordAction.approve = some RecordStatus.approved_internal
rfq_target RecordAction.reject = some RecordStatus.rejected
rfq_target RecordAction.return = some RecordStatus.returned
rfq_target RecordAction.issue = some RecordStatus.issued
rfq_target RecordAction.receive_responses = some RecordStatus.responses_received
rfq_target RecordAction.evaluate = some RecordStatus.evaluation
rfq_target RecordAction.award = some RecordStatus.awarded
rfq_target RecordAction.cancel = some RecordStatus.cancelled
rfq_target RecordAction.close = some RecordStatus.closed
rfq_target _ = none

-- `RFQ_TRANSITIONS`
abbrev pub rfq_allowed : RecordStatus → List RecordStatus
rfq_allowed RecordStatus.draft = RecordStatus.under_review ∷ []
rfq_allowed RecordStatus.under_review =
    RecordStatus.approved_internal ∷ RecordStatus.returned ∷ RecordStatus.rejected ∷ []
rfq_allowed RecordStatus.returned = RecordStatus.under_review ∷ []
rfq_allowed RecordStatus.approved_internal = RecordStatus.issued ∷ []
rfq_allowed RecordStatus.issued = RecordStatus.responses_received ∷ RecordStatus.cancelled ∷ []
rfq_allowed RecordStatus.responses_received = RecordStatus.evaluation ∷ []
rfq_allowed RecordStatus.evaluation = RecordStatus.awarded ∷ RecordStatus.cancelled ∷ []
rfq_allowed RecordStatus.awarded = RecordStatus.closed ∷ []
rfq_allowed _ = []

abbrev pub rfq_machine : Machine
rfq_machine = record {
  kind = RecordType.rfq;
  target = rfq_target;
  allowed = rfq_allowed;
  terminal = RecordStatus.rejected ∷ RecordStatus.closed ∷ RecordStatus.cancelled ∷ [];
  managed = RecordAction.approve ∷ RecordAction.reject ∷ RecordAction.return ∷ [];
}
