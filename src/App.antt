-- ===== src/App.antt =====
-- What the application runs on: its lifespan (main.py) and its broker client (api/core/mq.py).
pub mod Lifespan
pub mod Broker
pub mod Health
pub mod Origins
pub mod Logging
pub mod Responses
pub mod Engine
pub mod Environment
mod Tests
