-- ===== src/Bitset.antt =====
-- src/np_bitset.h: the bitset of one word, and the bitset of up to 64 words with an index word.
pub mod Word
pub mod Large
pub mod Contract
