-- ===== src/Schema/Fixtures.antt =====
-- A small election in the ten tables (api/v1/models).
use balotly_backend.Base.{ℕ, none, some, true, [], ◌∷◌}
use balotly_backend.Base.Int.{pos}
use balotly_backend.Schema.Rows.{
  BaseRow, Organization, Contest, Category, Candidate, VotePackage, Transaction, Vote,
}
use balotly_backend.Schema.Database.{Database}

abbrev pub base : ℕ → BaseRow
base n = record { id = n; created_at = 100; updated_at = 100 }

abbrev pub school : Organization
school = record {
  base = base 1;
  name = "SUG";
  contact_email = none;
  contact_phone = none;
  platform_fee_percent = some (pos 750);
  created_by_user_id = none;
}

abbrev pub election : Contest
election = record {
  base = base 10;
  organization_id = 1;
  name = "2026 SUG Elections";
  status = "active";
  requires_matric_number = true;
  caps_votes_per_identity = true;
  platform_fee_percent = none;
  starts_at = 100;
  ends_at = 200;
}

abbrev pub office : Category
office = record { base = base 20; contest_id = 10; name = "President" }

abbrev pub ada : Candidate
ada = record {
  base = base 30;
  category_id = 20;
  user_id = none;
  name = "Ada";
  slug = "ada";
  photo_url = none;
  bio = none;
  matric_number = none;
  poster_url = none;
  status = "approved";
  disqualification_reason = none;
}

abbrev pub single : VotePackage
single = record {
  base = base 40;
  contest_id = 10;
  amount_kobo = pos 10000;
  vote_count = pos 1;
  label = "One vote";
}

abbrev pub paid : Transaction
paid = record {
  base = base 50;
  candidate_id = 30;
  vote_package_id = 40;
  contest_id = 10;
  paystack_reference = "ref-1";
  amount_kobo = pos 10000;
  status = "success";
  voter_matric_number = some "CSC/1";
  voter_phone = none;
  enforce_identity_cap = true;
  confirmed_at = some 150;
}

abbrev pub first_vote : Vote
first_vote = record { id = 60; transaction_id = 50; candidate_id = 30; created_at = 150 }

abbrev pub second_vote : Vote
second_vote = record { id = 61; transaction_id = 50; candidate_id = 30; created_at = 151 }

abbrev pub stray_vote : Vote
stray_vote = record { id = 62; transaction_id = 51; candidate_id = 30; created_at = 152 }

abbrev pub db : Database
db = record {
  organizations = school ∷ [];
  users = [];
  contests = election ∷ [];
  categories = office ∷ [];
  candidates = ada ∷ [];
  vote_packages = single ∷ [];
  subaccounts = [];
  transactions = paid ∷ [];
  votes = first_vote ∷ [];
  settlements = [];
}
