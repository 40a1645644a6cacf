-- ===== src/Schema/Statuses.antt =====
-- The status and role constants of api/v1/models; each list is the class's `ALL`.
use balotly_backend.Base.{String, List, [], ◌∷◌}

-- `UserRole`
abbrev pub user_roles : List String
user_roles = "admin" ∷ "organizer" ∷ "candidate" ∷ []

-- `ContestStatus`
abbrev pub contest_draft : String
contest_draft = "draft"

abbrev pub contest_statuses : List String
contest_statuses = contest_draft ∷ "active" ∷ "closed" ∷ []

-- `CandidateStatus`
abbrev pub pending_approval : String
pending_approval = "pending_approval"

abbrev pub disqualified : String
disqualified = "disqualified"

abbrev pub candidate_statuses : List String
candidate_statuses = pending_approval ∷ "approved" ∷ disqualified ∷ []

-- `SubaccountStatus`
abbrev pub subaccount_pending : String
subaccount_pending = "pending"

abbrev pub verified : String
verified = "verified"

abbrev pub subaccount_statuses : List String
subaccount_statuses = subaccount_pending ∷ verified ∷ []

-- `TransactionStatus`
abbrev pub pending : String
pending = "pending"

abbrev pub success : String
success = "success"

abbrev pub failed : String
failed = "failed"

abbrev pub transaction_statuses : List String
transaction_statuses = pending ∷ success ∷ failed ∷ []

-- `SettlementStatus`
abbrev pub held : String
held = "held"

abbrev pub settlement_statuses : List String
settlement_statuses = held ∷ "released" ∷ "reversed" ∷ []
