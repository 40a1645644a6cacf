-- ===== src/Schema/Checks.antt =====
-- The CHECK constraints and the column types of each table (api/v1/models, and again in
-- alembic/versions/07f7b6151968_initial_schema.py): whether a row may be written at all.
use balotly_backend.Base.{Option, Bool, not, ◌&&◌, ltb, leb}
use balotly_backend.Base.Int.{ℤ, pos, leb_ℤ}
use balotly_backend.Schema.Sql.{
  Truth, truth, negate, either, both, accepts, is_null, is_not_null, at_least, at_most, equals,
  one_of, fits_varchar, fits_varchar_null, fits_integer, fits_numeric,
}
use balotly_backend.Schema.Rows.{
  Organization, User, Contest, Category, Candidate, VotePackage, Subaccount, Transaction,
  Settlement,
}
use balotly_backend.Schema.Statuses.{
  user_roles, contest_statuses, candidate_statuses, disqualified, subaccount_statuses, verified,
  transaction_statuses, success, settlement_statuses, held,
}

-- `p IS NULL OR (p >= 0 AND p <= 100)`; a percentage is counted in hundredths.
abbrev pub percent_range : Option ℤ → Truth
percent_range p = either (is_null p) (both (at_least (pos 0) p) (at_most (pos 10000) p))

-- ck_organizations_platform_fee_percent_range
abbrev pub organization_checks : Organization → Bool
organization_checks o = accepts (percent_range o.platform_fee_percent)

unfoldable pub organization_types : Organization → Bool
organization_types o =
    fits_varchar 255 o.name
    && fits_varchar_null 320 o.contact_email
    && fits_varchar_null 20 o.contact_phone
    && fits_numeric o.platform_fee_percent

-- ck_users_role
abbrev pub user_checks : User → Bool
user_checks u = accepts (one_of user_roles u.role)

unfoldable pub user_types : User → Bool
user_types u =
    fits_varchar 320 u.email && fits_varchar 255 u.password_hash && fits_varchar 32 u.role

-- ck_contests_status, ck_contests_window, ck_contests_platform_fee_percent_range
abbrev pub contest_checks : Contest → Bool
contest_checks c =
    accepts (one_of contest_statuses c.status)
    && accepts (truth (ltb c.starts_at c.ends_at))
    && accepts (percent_range c.platform_fee_percent)

unfoldable pub contest_types : Contest → Bool
contest_types c =
    fits_varchar 255 c.name && fits_varchar 32 c.status && fits_numeric c.platform_fee_percent

unfoldable pub category_types : Category → Bool
category_types c = fits_varchar 255 c.name

-- ck_candidates_status, ck_candidates_disqualified_has_reason
abbrev pub candidate_checks : Candidate → Bool
candidate_checks c =
    accepts (one_of candidate_statuses c.status)
    && accepts
        (either (negate (equals c.status disqualified)) (is_not_null c.disqualification_reason))

unfoldable pub candidate_types : Candidate → Bool
candidate_types c =
    fits_varchar 255 c.name
    && fits_varchar 255 c.slug
    && fits_varchar_null 64 c.matric_number
    && fits_varchar 32 c.status

-- ck_vote_packages_amount_positive, ck_vote_packages_votes_positive
abbrev pub vote_package_checks : VotePackage → Bool
vote_package_checks p =
    accepts (truth (not (leb_ℤ p.amount_kobo (pos 0))))
    && accepts (truth (not (leb_ℤ p.vote_count (pos 0))))

unfoldable pub vote_package_types : VotePackage → Bool
vote_package_types p =
    fits_integer 63 p.amount_kobo && fits_integer 31 p.vote_count && fits_varchar 64 p.label

-- ck_subaccounts_status, ck_subaccounts_verified_has_code, ck_subaccounts_percentage_charge_range
abbrev pub subaccount_checks : Subaccount → Bool
subaccount_checks s =
    accepts (one_of subaccount_statuses s.status)
    && accepts (either (negate (equals s.status verified)) (is_not_null s.subaccount_code))
    && accepts (percent_range s.percentage_charge)

unfoldable pub subaccount_types : Subaccount → Bool
subaccount_types s =
    fits_varchar 16 s.bank_code
    && fits_varchar_null 255 s.account_name
    && fits_varchar_null 64 s.subaccount_code
    && fits_numeric s.percentage_charge
    && fits_varchar 16 s.settlement_schedule
    && fits_varchar 32 s.status

-- ck_transactions_status, ck_transactions_amount_positive, ck_transactions_success_is_confirmed,
-- ck_transactions_cap_needs_matric_number
abbrev pub transaction_checks : Transaction → Bool
transaction_checks t =
    accepts (one_of transaction_statuses t.status)
    && accepts (truth (not (leb_ℤ t.amount_kobo (pos 0))))
    && accepts (either (negate (equals t.status success)) (is_not_null t.confirmed_at))
    && accepts (either (negate (truth t.enforce_identity_cap)) (is_not_null t.voter_matric_number))

unfoldable pub transaction_types : Transaction → Bool
unfolding fits_varchar fits_integer fits_varchar_null
transaction_types t =
    fits_varchar 100 t.paystack_reference
    && fits_integer 63 t.amount_kobo
    && fits_varchar 32 t.status
    && fits_varchar_null 64 t.voter_matric_number
    && fits_varchar_null 20 t.voter_phone

-- ck_settlements_status, ck_settlements_amount_non_negative, ck_settlements_period,
-- ck_settlements_action_is_timestamped
abbrev pub settlement_checks : Settlement → Bool
settlement_checks s =
    accepts (one_of settlement_statuses s.status)
    && accepts (truth (leb_ℤ (pos 0) s.amount_kobo))
    && accepts (truth (leb s.period_start s.period_end))
    && accepts (either (equals s.status held) (is_not_null s.actioned_at))

unfoldable pub settlement_types : Settlement → Bool
settlement_types s = fits_integer 63 s.amount_kobo && fits_varchar 32 s.status
