-- ===== src/PsiCreate.antt =====
-- psi_create.c: the tables of the output stream, and their transport packets.
pub mod Put
pub mod Keeps
pub mod Packets
pub mod Seal
pub mod Text
pub mod Descriptors
pub mod Pat
pub mod Sdt
pub mod Pmt
pub mod Nit
pub mod Ait
pub mod Eit
