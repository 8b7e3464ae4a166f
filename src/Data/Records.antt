-- ===== src/Data/Records.antt =====
-- The business records that workflows approve. Each type has a table of its own in the schema; here the
-- rows of all types stand in one list and are looked up by type and id. A row has the columns that
-- the modelled services read or write.
use fun_makers_system.Base.{ℕ, Option, List, Bool, ◌==◌}
use fun_makers_system.Base.Int.{ℤ}

pub data RecordType : Type 0 where
  ipa ipc rfq variation correspondence purchase_order supplier_invoice expense : RecordType
  cost_proposal tax_invoice vendor_contract framework_agreement credit_note : RecordType
  drawing_revision : RecordType

-- The statuses of all types.
pub data RecordStatus : Type 0 where
  draft submitted under_review returned rejected approved approved_internal signed : RecordStatus
  issued partially_delivered delivered closed cancelled received disputed paid : RecordStatus
  verified applied superseded for_approval for_construction : RecordStatus
  responses_received evaluation awarded active expired terminated : RecordStatus

-- The `action` of a manual transition.
pub data RecordAction : Type 0 where
  submit review approve reject return issue partial_deliver deliver cancel : RecordAction
  close dispute pay verify apply sign supersede receive_responses evaluate award : RecordAction
  activate terminate expire : RecordAction

-- What the audit row of a status change names.
pub data Trigger : Type 0 where
  workflow_approved workflow_returned workflow_rejected : Trigger
  manual : RecordAction → Trigger

-- `details` stands for the columns that the payloads of posting events are built from, and `entity_id`
-- is the project's.
pub record RecordRow : Type 0 where
  pub kind : RecordType
  pub id : ℕ
  pub project_id : ℕ
  pub entity_id : Option ℕ
  pub status : RecordStatus
  pub amount : ℤ
  pub drawing_id : Option ℕ
  pub details : ℕ

pub record Drawing : Type 0 where
  pub id : ℕ
  pub current_revision_id : Option ℕ

pub data QuotationStatus : Type 0 where
  received under_review shortlisted awarded rejected expired : QuotationStatus

pub record Quotation : Type 0 where
  pub id : ℕ
  pub rfq_id : ℕ
  pub status : QuotationStatus

pub record RecordTables : Type 0 where
  pub rows : List RecordRow
  pub drawings : List Drawing
  pub quotations : List Quotation

-- The record types as numbers, in the order of `CONVERGENCE_RECORD_TYPES`.
abbrev pub type_code : RecordType → ℕ
type_code ipa = 1
type_code ipc = 2
type_code rfq = 3
type_code variation = 4
type_code correspondence = 5
type_code purchase_order = 6
type_code supplier_invoice = 7
type_code expense = 8
type_code cost_proposal = 9
type_code tax_invoice = 10
type_code vendor_contract = 11
type_code framework_agreement = 12
type_code credit_note = 13
type_code drawing_revision = 14

abbrev pub status_code : RecordStatus → ℕ
status_code draft = 0
status_code submitted = 1
status_code under_review = 2
status_code returned = 3
status_code rejected = 4
status_code approved = 5
status_code approved_internal = 6
status_code signed = 7
status_code issued = 8
status_code partially_delivered = 9
status_code delivered = 10
status_code closed = 11
status_code cancelled = 12
status_code received = 13
status_code disputed = 14
status_code paid = 15
status_code verified = 16
status_code applied = 17
status_code superseded = 18
status_code for_approval = 19
status_code for_construction = 20
status_code responses_received = 21
status_code evaluation = 22
status_code awarded = 23
status_code active = 24
status_code expired = 25
status_code terminated = 26

abbrev pub action_code : RecordAction → ℕ
action_code submit = 0
action_code review = 1
action_code approve = 2
action_code reject = 3
action_code return = 4
action_code issue = 5
action_code partial_deliver = 6
action_code deliver = 7
action_code cancel = 8
action_code close = 9
action_code dispute = 10
action_code pay = 11
action_code verify = 12
action_code apply = 13
action_code sign = 14
action_code supersede = 15
action_code receive_responses = 16
action_code evaluate = 17
action_code award = 18
action_code activate = 19
action_code terminate = 20
action_code expire = 21

abbrev pub same_status : RecordStatus → RecordStatus → Bool
same_status a b = status_code a == status_code b

abbrev pub same_action : RecordAction → RecordAction → Bool
same_action a b = action_code a == action_code b
