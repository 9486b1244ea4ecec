-- ===== src/Lib.antt =====
-- FORGE-X: digital forensics case management (Flask over MySQL). This library models the services
-- that change records and proves what keeps a case file trustworthy: custody, hashes, examinations,
-- reports and the permissions on them.
--
-- Parts and how they interact. A request reaches a service function with the signed-in user; the
-- function checks a permission (app/access.py), locks rows and changes them in one transaction, or
-- calls a stored procedure that does (database/procedures.sql), under the CHECK constraints of
-- database/schema.sql and the triggers of database/triggers.sql, and records an audit row
-- (app/audit.py) in the same transaction.
--
-- Shared: lists and tables, texts, results. Shared/Outcome is the result of a transaction: an error
--   discards what was written, so a function that fails returns no store.
-- Store: the tables as lists of rows, in the order of insertion; Store/Roles the lookups of
--   fn_has_role and fn_is_case_lead; Store/Audit the function record of app/audit.py;
--   Store/Sequence the procedure sp_next_reference.
-- Access: app/access.py. Access/Matrix: what closure, roles and independence rule out.
-- Pagination: app/pagination.py. Pagination/Bounds, Cover and Window: pages and the pager.
-- Custody: the tables of actions of app/custody/services.py; Custody/Procedures: the procedures
--   sp_transfer_evidence and sp_record_custody_correction; Custody/Changes: transfer and
--   correct_entry, and the transaction of open_for_download of app/evidence/files.py. Custody/Table,
--   Latest, Inversion, InStep and History: proofs.
-- Integrity: record_original_hash, verify and correct_hash of app/integrity/services.py, with the
--   constraints and triggers of evidence_hashes and hash_verifications. Integrity/Current, Reference,
--   Table and Services: proofs.
-- Examinations: the rows, locks and constraints of app/examinations/services.py;
--   Examinations/Services: its functions; Workflow, Changes, Steps, History, Review and
--   Accepted: proofs.
-- Reports: the procedures and constraints of reports; Reports/Services: app/reports/services.py;
--   Workflow, Revisions, Versions, History and Approval: proofs.
-- Users: app/users/services.py. Users/Administrators and Users/Accounts: proofs.
-- Auth: sign-in of app/auth/services.py; Auth/Passwords: password_problems of
--   app/auth/passwords.py; Auth/Requests: signup_conflicts and is_safe_next. Auth/Throttle: proofs.
-- Cases: the procedures of cases; Cases/Services: app/cases/services.py. Cases/Closure: proofs.
-- Tokens: app/api/tokens.py. Tokens/Active: proofs.
-- Storage: LocalStorage of app/storage/__init__.py; Storage/Backend: the interface it shares with
--   s3.py; Storage/Migrate: app/storage/migrate.py between two backends. Storage/Digest, Local, Moved
--   and Run: proofs.
-- Evidence: register_evidence with sp_register_evidence, and update_evidence, of
--   app/evidence/services.py; Evidence/Texts: its LIKE patterns. Evidence/Registered and InStep: proofs.
-- Files: app/evidence/files.py on the local disk; Files/Attach: attach and verify_stored.
--   Files/Clean, Failed and Recorded: proofs.
-- Database: errors and transactions of app/db.py; Database/Messages: the constraint in a message;
--   Database/Retry: retry_on_transient; Database/Probe: triggers_active. Database/Atomic: proofs.
-- Yara: the rule library of app/yara/services.py; Yara/Scans: applicable_versions and run_scan.
--   Yara/Latest and Recorded: proofs.
-- Locations: app/locations/services.py. Locations/Inactive: proofs.
-- Signup: create_access_request of app/auth/services.py, and approve_request, reject_request and
--   update_user_details of app/users/services.py with their procedures. Signup/Reviewed: proofs.
-- Registry: EvidenceFilters and list_evidence of app/evidence/services.py, with LIKE, the order of a
--   sort key and the parsing of dates as parameters. Registry/Listing: list_evidence.
--   Registry/RoundTrip and Pages: proofs.
-- CaseList: CaseFilters.from_args and list_cases of app/cases/services.py, with the same parameters
--   and CURDATE(). CaseList/Pages: proof.
-- Graph: the class Graph of app/graph/services.py, and its node helpers; Graph/Build: case_graph, over
--   the rows of its queries, with url_for as a parameter. Graph/Capped and Drawn: proofs.
-- Tests in each component: the theorems at concrete stores.
--
-- Conventions. DATETIMEs are numbers of seconds; NOW(), the client's address and the next
-- AUTO_INCREMENT id are the argument Request. A transaction is one atomic step: MySQL's row locks and
-- its isolation are assumed. Foreign keys to tables that are not in the store are assumed to hold.
-- Message texts are constructors of an error type. The printing of decimals
-- has fuel n + 1, at least the number of digits of n; the reading of a file in chunks has as much
-- fuel as the file has bytes, which Storage/Digest proves to be enough.
--
-- Not modelled: routes, forms, templates, PDF files, the S3 client, the YARA scanner and Flask's
-- sessions, which are input and output or glue; the read-only queries but for the lists of evidence
-- and of cases and the graph of a case; and artifacts of examinations. Parameters:
-- MySQL's collation, Werkzeug's password hashing, SHA-256, the random secrets and DATE() are arguments
-- where the code uses them.
pub mod Shared
pub mod Access
pub mod Pagination
pub mod Store
pub mod Custody
pub mod Integrity
pub mod Examinations
pub mod Reports
pub mod Users
pub mod Auth
pub mod Cases
pub mod Tokens
pub mod Storage
pub mod Evidence
pub mod Files
pub mod Database
pub mod Yara
pub mod Locations
pub mod Signup
pub mod Registry
pub mod CaseList
pub mod Graph
