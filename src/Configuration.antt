-- ===== src/Configuration.antt =====
-- hyperion/internals/core.rs: the configuration of the trie.
use hyperion_rust.Common.{ℕ}
use hyperion_rust.Codes.{KeyProcessingId, no_processing}

-- A bitfield of 64 bits.
pub record GlobalConfigurationHeader : Type 0 where
  pub initialized : ℕ
  pub thread_keep_alive : ℕ
  pub preprocessor_strategy : KeyProcessingId
  pub container_size_increment : ℕ
  pub io_threads : ℕ
  pub container_embedding_high_watermark : ℕ

-- The two counts are signed and nothing counts yet.
pub record GlobalConfiguration : Type 0 where
  pub header : GlobalConfigurationHeader
  pub top_level_successor_threshold : ℕ
  pub container_embedding_limit : ℕ
  pub num_writes_million : ℕ
  pub num_reads_million : ℕ

-- `GLOBAL_CONFIG` at the start.
abbrev pub global_config : GlobalConfiguration
global_config = record {
  header = record {
    initialized = 0;
    thread_keep_alive = 0;
    preprocessor_strategy = no_processing;
    container_size_increment = 32;
    io_threads = 1;
    container_embedding_high_watermark = 0;
  };
  top_level_successor_threshold = 0;
  container_embedding_limit = 0;
  num_writes_million = 0;
  num_reads_million = 0;
}
