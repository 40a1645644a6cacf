-- ===== src/App/Engine.antt =====
-- The API's database engine (api/db/database.py), with the settings that it reads
-- (api/utils/settings.py). `create_async_engine` only keeps its arguments, and so it is a record here.
use balotly_backend.Base.{ℕ, Option, none, some, Bool, [], ◌∷◌}
use balotly_backend.Base.Text.{Text}
use balotly_backend.Url.Build.{Result, ok, ◌>>=◌, build_async_url}

-- What `Settings` has for the database; the values are pydantic's.
pub record Settings : Type 0 where
  pub db_url : Text
  pub db_pool_size : ℕ
  pub db_max_overflow : ℕ
  pub db_pool_timeout : ℕ
  pub db_pool_recycle : ℕ

-- A pool of connections, or NullPool.
pub data Pool : Type 0 where
  null_pool : Pool
  queue_pool : (size overflow timeout recycle : ℕ) → Pool

-- The arguments of `create_async_engine`; `ssl` is what connect_args has under that name.
pub record Engine : Type 0 where
  pub url : Text
  pub ssl : Option Text
  pub pool : Pool

-- `{"connect_args": {"ssl": mode}} if mode else {}`
unfoldable pub connect_args : Option Text → Option Text
connect_args none = none
connect_args (some []) = none
connect_args (some (c ∷ t)) = some (c ∷ t)

-- `get_db_engine`, with the module's `build_async_url(settings.DB_URL)`.
unfoldable pub get_db_engine : (netloc_ok : Text → Bool) → Settings → Result Engine
unfolding connect_args
get_db_engine netloc_ok settings = do
  (url, mode) ← build_async_url netloc_ok settings.db_url
  ok (record {
    url = url;
    ssl = connect_args mode;
    pool =
        queue_pool settings.db_pool_size settings.db_max_overflow settings.db_pool_timeout
          settings.db_pool_recycle;
  })
