-- ===== src/Data.antt =====
-- The rows of the database tables that the services read and write (packages/db/prisma/schema.prisma),
-- one module per area, with the columns that the modelled code reads or writes.
pub mod Audit
pub mod Access
pub mod Workflow
pub mod Errors
pub mod Posting
pub mod Budget
pub mod Records
pub mod Settings
