-- ===== src/Schema/Rows.antt =====
-- The rows of the ten tables (api/v1/models): a record for each model, with a field for each column.
--
-- A UUID is a number, a TIMESTAMPTZ the microseconds since the earliest one, a NUMERIC(5, 2) a number
-- of hundredths, and a nullable column an option. Relationships are no columns, and have no field.
use balotly_backend.Base.{ℕ, Option, Bool, String, List}
use balotly_backend.Base.Int.{ℤ}

-- `BaseTableModel`: the columns that all tables but `votes` share.
pub record BaseRow : Type 0 where
  pub id : ℕ
  pub created_at : ℕ
  pub updated_at : ℕ

pub record Organization : Type 0 where
  pub base : BaseRow
  pub open base use *
  pub name : String
  pub contact_email : Option String
  pub contact_phone : Option String
  pub platform_fee_percent : Option ℤ
  pub created_by_user_id : Option ℕ

pub record User : Type 0 where
  pub base : BaseRow
  pub open base use *
  pub email : String
  pub password_hash : String
  pub role : String
  pub organization_id : Option ℕ

pub record Contest : Type 0 where
  pub base : BaseRow
  pub open base use *
  pub organization_id : ℕ
  pub name : String
  pub status : String
  pub requires_matric_number : Bool
  pub caps_votes_per_identity : Bool
  pub platform_fee_percent : Option ℤ
  pub starts_at : ℕ
  pub ends_at : ℕ

pub record Category : Type 0 where
  pub base : BaseRow
  pub open base use *
  pub contest_id : ℕ
  pub name : String

pub record Candidate : Type 0 where
  pub base : BaseRow
  pub open base use *
  pub category_id : ℕ
  pub user_id : Option ℕ
  pub name : String
  pub slug : String
  pub photo_url : Option String
  pub bio : Option String
  pub matric_number : Option String
  pub poster_url : Option String
  pub status : String
  pub disqualification_reason : Option String

pub record VotePackage : Type 0 where
  pub base : BaseRow
  pub open base use *
  pub contest_id : ℕ
  pub amount_kobo : ℤ
  pub vote_count : ℤ
  pub label : String

-- The account number is ciphertext, a list of bytes.
pub record Subaccount : Type 0 where
  pub base : BaseRow
  pub open base use *
  pub candidate_id : ℕ
  pub bank_code : String
  pub account_number_encrypted : List ℕ
  pub account_name : Option String
  pub subaccount_code : Option String
  pub percentage_charge : Option ℤ
  pub settlement_schedule : String
  pub status : String

pub record Transaction : Type 0 where
  pub base : BaseRow
  pub open base use *
  pub candidate_id : ℕ
  pub vote_package_id : ℕ
  pub contest_id : ℕ
  pub paystack_reference : String
  pub amount_kobo : ℤ
  pub status : String
  pub voter_matric_number : Option String
  pub voter_phone : Option String
  pub enforce_identity_cap : Bool
  pub confirmed_at : Option ℕ

-- No `updated_at`: a vote is never changed.
pub record Vote : Type 0 where
  pub id : ℕ
  pub transaction_id : ℕ
  pub candidate_id : ℕ
  pub created_at : ℕ

pub record Settlement : Type 0 where
  pub base : BaseRow
  pub open base use *
  pub candidate_id : ℕ
  pub period_start : ℕ
  pub period_end : ℕ
  pub amount_kobo : ℤ
  pub status : String
  pub actioned_by_user_id : Option ℕ
  pub actioned_at : Option ℕ
