-- ===== src/Text.antt =====
-- Text that repmgr writes for other programs or reads from its users: the quoting of connection
-- strings and of shell arguments in compat.c, and the integers of configfile.c.
pub mod ConnString
pub mod Shell
pub mod Number
