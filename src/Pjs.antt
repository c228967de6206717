-- ===== src/Pjs.antt =====
-- The former proxy, pjs: its modules are mixins of one pipeline each, configured by a JSON file.
pub mod Access
pub mod CircuitBreaker
pub mod Cors
pub mod ErrorPage
pub mod FaultInjection
pub mod Forward
pub mod Headers
pub mod HealthCheck
pub mod Matches
pub mod Rewrites
pub mod Route
pub mod Variables
pub mod WebServer
use fgw.Base.{arith, ◌<◌, ℕ, Option, none, some, if◌then◌else◌, ◌==◌}

-- `setting || default` for a number, where 0 counts as unset.
abbrev pub or_number : Option ℕ → ℕ → ℕ
or_number none default = default
or_number (some n) default = if n == 0 then default else n

pub or_number_pos : (o : Option ℕ) (n : ℕ) → 0 < n → 0 < or_number o n
or_number_pos none n h = h
or_number_pos (some k) n h = ground (arith, h)
