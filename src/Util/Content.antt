-- ===== src/Util/Content.antt =====
-- log_system/logs_code/Util.hpp: how the bytes of the configuration file come to the configuration.
use tcp_server.Util.Settings.{Json, JsonData, no_json_data, from_root, new_json_data}
use tcp_server.Base.{
  ℕ, ◌-◌, ◌^◌, ◌≤◌, ◌≡◌, refl, ap, ◌∙◌, Bool, true, false, Option, none, some, List, [], ◌++◌,
  arith, ltb, leb, if◌then◌else◌, le→ltb, if_true, if_false, length, take, replicate, take_all,
  size_mod,
}

-- `FileSize`, by what `stat` gives, as the `size_t` that its only caller takes it for: an error is -1.
unfoldable pub file_size : Option ℕ → ℕ
file_size none = size_mod - 1
file_size (some st_size) = st_size

-- `std::string::max_size` of libstdc++.
abbrev pub max_size : ℕ
max_size = 2 ^ 63 - 1

-- The read of `len` bytes: whether all came, and the string that was resized for them.
unfoldable pub read_into : ℕ → List ℕ → Bool × List ℕ
read_into len bytes =
    if leb len (length bytes)
    then (true, take len bytes)
    else (false, bytes ++ replicate (len - length bytes) 0)

-- `GetContent`, by what opening the file gives, its bytes, and what `stat` says of its size; `none` is the
-- exception of a `resize` that is too large.
unfoldable pub get_content : Option (List ℕ) → Option ℕ → Option (Bool × List ℕ)
get_content none stat = some (false, [])
get_content (some bytes) stat =
    if ltb max_size (file_size stat) then none else some (read_into (file_size stat) bytes)

abbrev pub content_if : Bool × List ℕ → Option (List ℕ)
content_if (true, content) = some content
content_if (false, content) = none

module _ (json : Json) where
  -- The constructor of `JsonData` from its first line on; `exists` is what `Exists` says of the file.
  unfoldable pub load_json_data : Bool → Option (List ℕ) → Option ℕ → Option JsonData
  load_json_data exists opened stat =
      if exists
      then elim (get_content opened stat) [
        | none ↦ none
        | some got ↦ some (new_json_data json (content_if got))
      ]
      else some no_json_data

  -- A configuration file that is there, can be opened and does not change meanwhile, of less than 2 ^ 63
  -- bytes, is read whole; one that is not there or cannot be opened leaves every setting at 0; one that
  -- can be opened and not be asked for its size makes the constructor throw.
  pub load_json_data_lem :
      (bytes : List ℕ) (opened : Option (List ℕ)) (stat : Option ℕ)
      → length bytes ≤ max_size
      → (load_json_data true (some bytes) (some (length bytes))
          ≡ some (from_root json (json.parse bytes)))
        × (load_json_data false opened stat ≡ some no_json_data)
        × (load_json_data true none stat ≡ some no_json_data)
        × (load_json_data true (some bytes) none ≡ none)
  unfolding load_json_data get_content read_into file_size new_json_data
  load_json_data_lem bytes opened stat h =
      let small : ltb max_size (length bytes) ≡ false = le→ltb max_size (length bytes) h in
      let whole : leb (length bytes) (length bytes) ≡ true = ground arith in
      let all : read_into (length bytes) bytes ≡ (true, bytes) =
        if_true (leb (length bytes) (length bytes)) (true, take (length bytes) bytes) _ whole
        ∙ ap (λ (z : List ℕ). (true, z)) (take_all (length bytes) bytes (omega arith)) in
      (
        ap
            (λ (o : Option (Bool × List ℕ)). elim o as (λ _. Option JsonData) [
              | none ↦ none
              | some got ↦ some (new_json_data json (content_if got))
            ])
            (if_false (ltb max_size (length bytes)) none (some (read_into (length bytes) bytes))
                small
              ∙ ap some all),
        refl,
        refl,
        refl,
      )
