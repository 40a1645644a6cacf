-- ===== src/App/Origins/Tests.antt =====
-- The CORS origins of main.py for the default setting.
use balotly_backend.Base.{ℕ, List, map, Bool, ◌≡◌, refl, [], ◌∷◌, eqb}
use balotly_backend.Base.Text.{Text, codes, split_on, join}
use balotly_backend.App.Origins.{origins}
use balotly_backend.App.Origins.Laws.{Part, written, origins-join}

abbrev is_blank_space : ℕ → Bool
is_blank_space c = eqb c b' '

abbrev local_host : Text
local_host = codes "http://localhost:3000"

abbrev loopback : Text
loopback = codes "http://127.0.0.1:3000"

abbrev first_part : Part is_blank_space
first_part = record { before = codes " "; origin = local_host; after = [] }

abbrev other_parts : List (Part is_blank_space)
other_parts =
    record { before = []; origin = []; after = codes "  " }
    ∷ record { before = codes " "; origin = loopback; after = codes " " }
    ∷ []

origins-join_example :
    origins is_blank_space (join b',' (map (written is_blank_space) (first_part ∷ other_parts)))
    ≡ local_host ∷ loopback ∷ []
origins-join_example = origins-join is_blank_space first_part other_parts refl refl

-- Spaces and empty parts are dropped.
untidy : origins is_blank_space (codes " http://localhost:3000 ,, ") ≡ local_host ∷ []
unfolding origins split_on
untidy = refl
