-- ===== src/Tests.antt =====
-- Runs on concrete data.
mod Workflow
mod Posting
mod Budget
mod Override
mod System
