-- ===== src/App/Logging/Tests.antt =====
-- Logging (api/utils/logger.py, main.py) with concrete loggers and secrets.
use balotly_backend.Base.{some, true, false, ◌≡◌, ◌↔◌, refl, [], ◌∷◌, ◌++◌, take, length, string_eq}
use balotly_backend.Base.Text.{Text, codes}
use balotly_backend.App.Logging.{Loggers, info, warning, is_enabled, set_up_logging}
use balotly_backend.App.Logging.Laws.{is_enabled-set_up_logging}
use balotly_backend.App.Logging.Redact.{decimal, redact, redact_iff}

abbrev fresh : Loggers
fresh = record { levels = []; root_level = warning; root_handled = false }

is_enabled-set_up_logging_example :
    is_enabled (set_up_logging fresh) ("httpx" ∷ "_client" ∷ []) info ≡ false
unfolding string_eq
is_enabled-set_up_logging_example =
    is_enabled-set_up_logging fresh "httpx" ("_client" ∷ []) refl (λ part rest. refl)

-- The logger of the application itself does log at INFO.
balotly_logs : is_enabled (set_up_logging fresh) ("balotly" ∷ []) info ≡ true
unfolding is_enabled set_up_logging string_eq
balotly_logs = refl

abbrev secret : Text
secret = codes "sk_live_0123456789"

abbrev other_secret : Text
other_secret = codes "sk_live_9876543210"

-- `sk_l…(len=18)`
secret_logged : redact (some secret) 4 ≡ codes "sk_l" ++ 8230 ∷ codes "(len=18)"
unfolding redact decimal
secret_logged = refl

redact_iff_example :
    (redact (some secret) 4 ≡ redact (some other_secret) 4)
    ↔ (length secret ≡ length other_secret) × (take 4 secret ≡ take 4 other_secret)
redact_iff_example = redact_iff 4 secret other_secret (λ e. cc) (λ e. cc)
