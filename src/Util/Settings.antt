-- ===== src/Util/Settings.antt =====
-- log_system/logs_code/Util.hpp: the configuration that `JsonData` reads once.
use tcp_server.LogBuffer.{Config, through_int, grown_size}
use tcp_server.Base.{
  ℕ, ◌%◌, ◌^◌, ◌≡◌, refl, ap, ◌∙◌, Bool, false, Option, none, some, List, [], arith, ltb, if_false,
  codes, add_size,
}

-- jsoncpp, as far as the code relies on it: `parse` leaves a null value where the text is no JSON, a member
-- that is not there is null, and null is 0 as a number and empty as a text. Numbers are what their
-- conversion to `size_t` gives; a member of another type, for which the conversion throws, is not modelled.
pub record Json : Type 1 where
  pub Value : Type 0
  pub parse : List ℕ → Value
  pub is_member : Value → List ℕ → Bool
  pub member : Value → List ℕ → Value
  pub as_size : Value → ℕ
  pub as_string : Value → List ℕ
  pub missing : (v : Value) (key : List ℕ) → is_member v key ≡ false → as_size (member v key) ≡ 0

pub record JsonData : Type 0 where
  pub buffer_size : ℕ
  pub threadhold : ℕ
  pub linear_growth : ℕ
  pub flush_log : ℕ
  pub backup_addr : List ℕ
  pub backup_port : ℕ
  pub thread_count : ℕ

-- The only instance is static, so that what the constructor leaves out is 0.
abbrev pub no_json_data : JsonData
no_json_data = record {
  buffer_size = 0;
  threadhold = 0;
  linear_growth = 0;
  flush_log = 0;
  backup_addr = [];
  backup_port = 0;
  thread_count = 0;
}

-- What the log buffers use of it.
abbrev pub log_config : JsonData → Config
log_config d = record {
  buffer_size = d.buffer_size;
  threadhold = d.threadhold;
  linear_growth = d.linear_growth;
}

module _ (json : Json) where
  unfoldable pub from_root : json.Value → JsonData
  from_root root = record {
    buffer_size = json.as_size (json.member root (codes "buffer_size"));
    threadhold = json.as_size (json.member root (codes "threadhold"));
    linear_growth = json.as_size (json.member root (codes "linear_growth"));
    flush_log = json.as_size (json.member root (codes "flush_log"));
    backup_addr = json.as_string (json.member root (codes "backup_addr"));
    backup_port = json.as_size (json.member root (codes "backup_port")) % 2 ^ 16;
    thread_count = json.as_size (json.member root (codes "thread_count"));
  }

  -- The constructor; `content` is what `Exists` and `GetContent` give of the file, `none` where either
  -- fails.
  unfoldable pub new_json_data : Option (List ℕ) → JsonData
  new_json_data none = no_json_data
  new_json_data (some content) = from_root (json.parse content)

  -- Where the configuration file has no member `threadhold`, and where there is no file, the log
  -- buffers never double: whatever their size is, they grow by `linear_growth`.
  pub never_doubles :
      (content : Option (List ℕ)) (size : ℕ)
      → ((c : List ℕ)
          → content ≡ some c
          → json.is_member (json.parse c) (codes "threadhold") ≡ false)
      → grown_size (log_config (new_json_data content)) size
        ≡ add_size (new_json_data content).linear_growth (through_int size)
  unfolding new_json_data from_root grown_size
  never_doubles none size h = if_false (ltb size 0) _ _ (ground arith)
  never_doubles (some c) size h =
      if_false _ _ _
        (ap (ltb size) (json.missing (json.parse c) (codes "threadhold") (h c refl)) ∙ ground arith)
