-- ===== src/Host.antt =====
-- The agent's services on its own host: units, journals, commands, backup paths and probes.
pub mod Systemd
pub mod Journal
pub mod Exec
pub mod Backup
pub mod Health
mod Tests
