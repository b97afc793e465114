-- ===== src/Cmd.antt =====
-- cmd: the server binary with its modes, operator, gateway and agent.
pub mod Gateway
pub mod Modes
pub mod Start
pub mod Operator
