-- ===== src/Lib.antt =====
-- A verification library for FUN MAKERS SYSTEM, a platform for projects, procurement and their
-- postings (TypeScript over a relational database). It models the parts of packages/core/src that
-- decide what becomes of a record: the workflow engine, the handlers that make a record's status follow
-- its workflow, the manual transitions of procurement records, the posting ledger, budget
-- absorption, and the overrides that bypass a workflow.
--
-- How the parts interact. Every service writes its rows together with an audit row. A workflow instance
-- walks a template's steps as approvers act; when it ends, events go to the subscribers of a bus, which
-- write the status of the record. Records that are approved post events to the ledger and are
-- absorbed by the lines of their project's budget. Submitting a record by hand starts its workflow.
--
--   Base        lists, options, texts, integers and Boolean tests that all modules share
--   Data        the rows of packages/db/prisma/schema.prisma that the modelled services use, the
--               unions, and the errors they throw
--   Effects     a service method as a function on the world: the database, the events published so
--               far, and an environment that decides ids, times and which database calls fail.
--               Effects/Laws is about calls that read, Effects/Keeps about calls that keep a property
--   Audit, Org  packages/core/src/audit/service.ts (`log`) and org-resolution.ts
--   Override    access-control/override-policy.ts and audit/override.ts (`withOverride`)
--   Workflow    workflow/steps.ts, instances.ts, approver-resolution.ts, template-resolution.ts,
--               events.ts and `findActiveByCode` of templates.ts: Order is about the steps of a
--               template, Approvers about who may act, Steps about the four actions, Instances about
--               starting, Resolution about the choice of a template, Bus about the delivery of events,
--               Sla about the time limit, and Lifecycle about runs of requests
--   Convergence workflow/convergence-handlers.ts: the handlers that write the status of a record when
--               its workflow is approved, returned or rejected. Apart is about what follows a status,
--               Redelivery and Lost about a second delivery
--   Transitions procurement/*/service.ts and transitions.ts of purchase orders, supplier invoices,
--               expenses, credit notes, vendor contracts and requests for quotation: the manual
--               transitions and their tables
--   System      the three parts above together: requests, each followed by the delivery of its events,
--               and manual transitions, in any order; what no run of them can do
--   Posting     posting/service.ts, event-registry.ts, reversal.ts and exceptions.ts
--   Budget      budget/absorption.ts: Lines finds and changes budget lines, Absorption has the five
--               handlers
--   Fixtures    the data of the runs in Tests
--
-- Correspondence. A function has the name of the source's in snake case (`approveStep` is
-- `approve_step`), and its guards and calls in the source's order. Ids, codes, names, payloads and
-- messages are numbers, since the code compares and passes them on; a text that the code trims is a
-- list of code units; an amount is an integer number of hundredths, a time a number of milliseconds.
-- A query is a function of the database, a write one that may refuse (a row that is not there, a
-- unique column that is taken). Any call may fail, commits included, and a failed transaction puts the
-- database back. Calls run one after the other: reads that the code starts together are made in
-- order, and two requests never interleave. No loop needs fuel: lists are walked structurally.
--
-- The tables of the record types stand in one list of rows, which have a type, a status and the columns
-- that the modelled code reads; an amount that a budget handler reads is a column of a table of its own.
--
-- Parameters. Zod schemas are functions that parse a payload or refuse it, the business action of an
-- override is an argument, template codes that are built from a prefix are the values of two functions,
-- and the environment supplies ids, times and faults, without any hypothesis.
--
-- Not modelled: notifications, JSON snapshots, the ip and the user agent of audit rows, list queries, the
-- permission scope for status writes, the template service but for the lookup, the subtypes of template
-- resolution, the commercial services, creation and update of procurement records, access control and
-- sessions, imports, documents, the web application and infrastructure.
pub mod Base
pub mod Data
pub mod Effects
pub mod Audit
pub mod Workflow
pub mod Org
pub mod Posting
pub mod Budget
pub mod Override
pub mod Convergence
pub mod Transitions
pub mod System
pub mod Fixtures
pub mod Tests
