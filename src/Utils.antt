-- ===== src/Utils.antt =====
-- src/rh-utils.c: the splitting of a parameter text (Sep), the numbering of the addresses of a virtual
-- server (Ip), log messages (Log), and the log and the pid file (Files).
pub mod Sep
pub mod Ip
pub mod Log
pub mod Files
