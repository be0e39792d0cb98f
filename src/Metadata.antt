-- ===== src/Metadata.antt =====
-- siprec_metadata.c and siprec_metadata.h: the RFC 7865 metadata document. The IDs, the
-- escaping of XML, the addresses of participants and the document itself are the children.
pub mod Id
pub mod Escape
pub mod Aor
pub mod Document
