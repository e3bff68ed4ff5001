-- ===== src/Config.antt =====
-- src/runtime.rs: the limits of a runtime, and what they make of the options of a source.
use tabulark.Base.{ℕ, ◌*◌, min}
use tabulark.Csv.Options.{DelimitedOptions}

pub record RuntimeConfig : Type 0 where
  pub memory_budget_bytes : ℕ
  pub index_budget_bytes : ℕ
  pub tile_cache_budget_bytes : ℕ
  pub chunk_bytes : ℕ
  pub checkpoint_rows : ℕ
  pub max_field_bytes : ℕ
  pub max_columns : ℕ
  pub max_range_cells : ℕ
  pub max_batch_bytes : ℕ
  pub max_sources : ℕ
  pub max_active_ranges : ℕ

-- `RuntimeConfig::default`
abbrev pub default_config : RuntimeConfig
default_config = record {
  memory_budget_bytes = 256 * 1024 * 1024;
  index_budget_bytes = 64 * 1024 * 1024;
  tile_cache_budget_bytes = 96 * 1024 * 1024;
  chunk_bytes = 1024 * 1024;
  checkpoint_rows = 1_024;
  max_field_bytes = 16 * 1024 * 1024;
  max_columns = 16_384;
  max_range_cells = 250_000;
  max_batch_bytes = 32 * 1024 * 1024;
  max_sources = 8;
  max_active_ranges = 2;
}

-- The options of a source under the limits of the runtime.
abbrev pub clamp : RuntimeConfig → DelimitedOptions → DelimitedOptions
clamp c o = record o {
  checkpoint_interval = c.checkpoint_rows;
  limits = record o.limits {
    max_field_bytes = min o.limits.max_field_bytes c.max_field_bytes;
    max_columns = min o.limits.max_columns c.max_columns;
    max_cells_per_range = min o.limits.max_cells_per_range c.max_range_cells;
    max_batch_bytes = min o.limits.max_batch_bytes c.max_batch_bytes;
  };
}
