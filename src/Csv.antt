-- ===== src/Csv.antt =====
-- fb_core/src/csv_parser.cpp and fb_core/include/fb/csv_parser.h, the RFC 4180 parser and writer:
-- Types holds the object and its exceptions, Fields the work on one field, Rows `finalize_row`,
-- Scan the state machine over the bytes, Parser the constructor and the writer, Access the
-- read-only methods.
pub mod Types
pub mod Fields
pub mod Rows
pub mod Scan
pub mod Parser
pub mod Access
mod Tests
