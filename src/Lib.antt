-- ===== src/Lib.antt =====
-- The shellfleet agent (Rust): the guards, protocols and helpers behind its messages.
--
-- The agent runs on a host and serves requests of a control plane: it reads and writes config files,
-- starts containers, upgrades packages, probes services, makes backups, and relays root operations
-- to an approval gate that a human approver must sign for. This library models the parts that carry
-- decisions of their own:
--
-- - Common: numbers, lists, results and texts. A `str` is the list of its code points, with `len`
--   counted in UTF-8 bytes; a `[u8]` is a list of numbers.
-- - Config (src/config.rs): `check`, `check_read`, `check_write`. The file system's `canonicalize` is
--   a parameter.
-- - Privileged.Wire: the values of the crate `shared`; Privileged.Policy (src/privileged/policy.rs):
--   `classify`; Privileged.Framing (src/privileged/framing.rs): `read_frame`, `write_frame`;
--   Privileged.Crypto (src/privileged/crypto.rs): `Transport`; Privileged.Approval
--   (src/privileged/approval.rs): `challenge`, `approve`, `load_approvers`.
-- - Privileged.Gate (src/bin/shellfleet-approval-gate.rs): `handle`, `run_command`, `run_pty` as a
--   monad of state and errors over a `World`, and `enroll_approver`; also `configured_agent_uid`
--   (src/privileged/peer.rs). What the operating system answers is the record `Host`; the rounds of
--   `select!` are the list of what wins each.
-- - Apt (src/apt.rs): `parse_apt_list`, `refresh`, and `upgrade` with its journal; the watch runs over
--   the list of what each tick finds, and is still waiting when the list ends.
-- - Deploy (src/deploy.rs): `split_command`, `create_container`, `create_service`, with the arguments
--   they give to `docker`; Docker (src/docker.rs): the checks on references, and the operations on one
--   container, service, stack, image, network or volume. The process is a parameter, `Runner`; the
--   `None` of an operation whose log is cut is the panic of `String::drain`.
-- - K8s (src/k8s.rs): what a manifest may ask for, over JSON values: `validate_pod_spec`,
--   `validate_apply_document`, `configured_apply_namespaces`.
-- - Host: `systemctl` (src/systemd.rs), `journalctl` (src/journal_stream.rs), allow-listed commands
--   and their execution (src/exec.rs), where the two readers are small steps and an interleaving is
--   a list of events, health probes and their table (src/health.rs), backups and their
--   paths (src/backup.rs).
--
-- Errors are values of a data type of each module, one constructor for each message of the source.
-- The cryptography, JSON, base64, the database file, the clock and the random generator are
-- parameters; their documented behaviour is a named hypothesis where a result needs it. Times are
-- seconds since the epoch and never negative. Loops are structural recursions, so none takes fuel.
-- Not modelled: the WebSocket connection and the dispatch of messages, the gate's daemon around its
-- connections and key generation, the relay between the two, terminals, the listings of Docker, the
-- Kubernetes client, the part loop of uploads, and the restoring of backups: they are mostly calls of
-- libraries and of the operating system, with little of their own to state.
pub mod Apt
pub mod Common
pub mod Config
pub mod Deploy
pub mod Docker
pub mod Host
pub mod K8s
pub mod Privileged
