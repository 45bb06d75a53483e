-- ===== src/Mysql.antt =====
-- MySQLConnector.hpp and MySQLConnector.cpp: the rights of the members in the database.
pub mod Statements
pub mod Buffers
pub mod Suited
pub mod Change
pub mod Quoting
pub mod Rights
pub mod Tests
