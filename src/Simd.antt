-- ===== src/Simd.antt =====
-- memorymanager/internals/simd_common.rs, simd_avx2.rs and simd_sse4_1.rs: searches in the usage
-- masks and in the metabin ring, in a version for AVX2, one for SSE4.1 and a plain one.
pub mod Lanes
pub mod FirstBit
pub mod AllBits
pub mod Count
pub mod Lane16
