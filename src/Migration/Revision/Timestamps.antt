-- ===== src/Migration/Revision/Timestamps.antt =====
-- `_timestamps` (alembic/versions/07f7b6151968_initial_schema.py).
use balotly_backend.Base.{String, [], ◌∷◌}
use balotly_backend.Base.Dict.{Dict}
use balotly_backend.Migration.Catalog.{Column, timestamptz, defaulted}

abbrev pub timestamps : Dict String Column
timestamps =
    ("created_at", defaulted timestamptz "now()")
    ∷ ("updated_at", defaulted timestamptz "now()")
    ∷ []
