-- ===== src/Migration/Cells.antt =====
-- The rows of the models (api/v1/models) as the rows of the catalog's tables.
use balotly_backend.Base.{
  Option, none, some, String, List, [], ◌∷◌, map, ◌==◌, string_eq, if◌then◌else◌,
}
use balotly_backend.Base.Dict.{Dict, lookup}
use balotly_backend.Schema.Rows.{
  BaseRow, Organization, User, Contest, Category, Candidate, VotePackage, Subaccount, Transaction,
  Vote, Settlement,
}
use balotly_backend.Schema.Database.{Database}
use balotly_backend.Migration.Conditions.{
  Value, null, key, moment, string, whole, hundredths, flag, bytes, Row,
}

abbrev cell : Option Value → Value
cell none = null
cell (some v) = v

abbrev cells : Dict String Value → Row
cells d n = cell (lookup n d)

abbrev pub maybe : {A : Type 0} → (A → Value) → Option A → Value
maybe f none = null
maybe f (some a) = f a

abbrev base_cells : BaseRow → Dict String Value → Row
base_cells b d = cells (
    ("id", key b.id)
    ∷ ("created_at", moment b.created_at)
    ∷ ("updated_at", moment b.updated_at)
    ∷ d)

unfoldable pub organization_cells : Organization → Row
organization_cells r = base_cells r.base (
    ("name", string r.name)
    ∷ ("contact_email", maybe string r.contact_email)
    ∷ ("contact_phone", maybe string r.contact_phone)
    ∷ ("platform_fee_percent", maybe hundredths r.platform_fee_percent)
    ∷ ("created_by_user_id", maybe key r.created_by_user_id)
    ∷ [])

unfoldable pub user_cells : User → Row
user_cells r = base_cells r.base (
    ("email", string r.email)
    ∷ ("password_hash", string r.password_hash)
    ∷ ("role", string r.role)
    ∷ ("organization_id", maybe key r.organization_id)
    ∷ [])

unfoldable pub contest_cells : Contest → Row
contest_cells r = base_cells r.base (
    ("organization_id", key r.organization_id)
    ∷ ("name", string r.name)
    ∷ ("status", string r.status)
    ∷ ("requires_matric_number", flag r.requires_matric_number)
    ∷ ("caps_votes_per_identity", flag r.caps_votes_per_identity)
    ∷ ("platform_fee_percent", maybe hundredths r.platform_fee_percent)
    ∷ ("starts_at", moment r.starts_at)
    ∷ ("ends_at", moment r.ends_at)
    ∷ [])

unfoldable pub category_cells : Category → Row
category_cells r =
    base_cells r.base (("contest_id", key r.contest_id) ∷ ("name", string r.name) ∷ [])

unfoldable pub candidate_cells : Candidate → Row
candidate_cells r = base_cells r.base (
    ("category_id", key r.category_id)
    ∷ ("user_id", maybe key r.user_id)
    ∷ ("name", string r.name)
    ∷ ("slug", string r.slug)
    ∷ ("photo_url", maybe string r.photo_url)
    ∷ ("bio", maybe string r.bio)
    ∷ ("matric_number", maybe string r.matric_number)
    ∷ ("poster_url", maybe string r.poster_url)
    ∷ ("status", string r.status)
    ∷ ("disqualification_reason", maybe string r.disqualification_reason)
    ∷ [])

unfoldable pub vote_package_cells : VotePackage → Row
vote_package_cells r = base_cells r.base (
    ("contest_id", key r.contest_id)
    ∷ ("amount_kobo", whole r.amount_kobo)
    ∷ ("vote_count", whole r.vote_count)
    ∷ ("label", string r.label)
    ∷ [])

unfoldable pub subaccount_cells : Subaccount → Row
subaccount_cells r = base_cells r.base (
    ("candidate_id", key r.candidate_id)
    ∷ ("bank_code", string r.bank_code)
    ∷ ("account_number_encrypted", bytes r.account_number_encrypted)
    ∷ ("account_name", maybe string r.account_name)
    ∷ ("subaccount_code", maybe string r.subaccount_code)
    ∷ ("percentage_charge", maybe hundredths r.percentage_charge)
    ∷ ("settlement_schedule", string r.settlement_schedule)
    ∷ ("status", string r.status)
    ∷ [])

unfoldable pub transaction_cells : Transaction → Row
transaction_cells r = base_cells r.base (
    ("candidate_id", key r.candidate_id)
    ∷ ("vote_package_id", key r.vote_package_id)
    ∷ ("contest_id", key r.contest_id)
    ∷ ("paystack_reference", string r.paystack_reference)
    ∷ ("amount_kobo", whole r.amount_kobo)
    ∷ ("status", string r.status)
    ∷ ("voter_matric_number", maybe string r.voter_matric_number)
    ∷ ("voter_phone", maybe string r.voter_phone)
    ∷ ("enforce_identity_cap", flag r.enforce_identity_cap)
    ∷ ("confirmed_at", maybe moment r.confirmed_at)
    ∷ [])

unfoldable pub vote_cells : Vote → Row
vote_cells r = cells (
    ("id", key r.id)
    ∷ ("transaction_id", key r.transaction_id)
    ∷ ("candidate_id", key r.candidate_id)
    ∷ ("created_at", moment r.created_at)
    ∷ [])

unfoldable pub settlement_cells : Settlement → Row
settlement_cells r = base_cells r.base (
    ("candidate_id", key r.candidate_id)
    ∷ ("period_start", moment r.period_start)
    ∷ ("period_end", moment r.period_end)
    ∷ ("amount_kobo", whole r.amount_kobo)
    ∷ ("status", string r.status)
    ∷ ("actioned_by_user_id", maybe key r.actioned_by_user_id)
    ∷ ("actioned_at", maybe moment r.actioned_at)
    ∷ [])

-- The rows of each table; there are none in a table that the models do not have.
unfoldable pub tables_of : Database → String → List Row
unfolding organization_cells user_cells contest_cells category_cells candidate_cells
    vote_package_cells subaccount_cells transaction_cells vote_cells settlement_cells
tables_of db t = rows_under t (
    ("organizations", map organization_cells db.organizations)
    ∷ ("users", map user_cells db.users)
    ∷ ("contests", map contest_cells db.contests)
    ∷ ("categories", map category_cells db.categories)
    ∷ ("candidates", map candidate_cells db.candidates)
    ∷ ("vote_packages", map vote_package_cells db.vote_packages)
    ∷ ("subaccounts", map subaccount_cells db.subaccounts)
    ∷ ("transactions", map transaction_cells db.transactions)
    ∷ ("votes", map vote_cells db.votes)
    ∷ ("settlements", map settlement_cells db.settlements)
    ∷ [])
  where
    rows_under : String → Dict String (List Row) → List Row
    rows_under t [] = []
    rows_under t ((n, rows) ∷ d) = if t == n then rows else rows_under t d
