-- ===== src/PsiRead.antt =====
-- psi_read.c: the tables of the input streams.
pub mod Sections
pub mod Pat
pub mod Sdt
pub mod Pmt
pub mod Clock
