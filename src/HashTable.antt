-- ===== src/HashTable.antt =====
-- `VerificationHashEntry` and `VerificationHashTable` of include/par2/verificationhashtable.h
-- and src/verificationhashtable.cpp: binary trees of checksums, one tree to each hash bucket.
-- A pointer into a tree is the subtree that it points at, and null is `empty`.
pub mod Tree
pub mod Chains
pub mod Lookup
pub mod Insert
pub mod Table
pub mod Match
