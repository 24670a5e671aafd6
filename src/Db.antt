-- ===== src/Db.antt =====
-- lumo/db: the SQLite schema with its constraints (`Rows`), the repository over it (`Repo`) and
-- the decisions that it records (`Decide`).
pub mod Rows
pub mod Ulid
pub mod Queries
pub mod Repo
pub mod Evolves
pub mod Frame
pub mod Decide
pub mod Preserved
pub mod Unique
pub mod Fresh
