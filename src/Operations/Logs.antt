-- ===== src/Operations/Logs.antt =====
-- OperationManager.get_logs of api/gem_api/services/operations.py: the log of an operation, read back
-- from its file or from the buffer in memory.
pub mod Lines
pub mod Mirror
use gem_gdc_emulation_enviro.Prelude.{
  Text, codes, ℕ, zero, suc, ◌+◌, List, [], ◌∷◌, map, Option, none, some, Bool, true, false, ◌&&◌,
  ◌==◌, if◌then◌else◌, take_last,
}
use gem_gdc_emulation_enviro.Prelude.Strings.{rstrip, cons_head}
use gem_gdc_emulation_enviro.Prelude.Dict
use gem_gdc_emulation_enviro.Exceptions.{
  Outcome, returned, raised, http, status_400_bad_request, status_404_not_found, ◌&◌, quoted,
}
use gem_gdc_emulation_enviro.Operations.World.{
  Environment, World, get_record, has_log_path, invalid_id_detail,
}

-- Reading in text mode: `\r\n` and a lone `\r` arrive as `\n`. The flag says that a `\r` came just before.
unfoldable pub universal_newlines : Bool → Text → Text
universal_newlines after_return [] = []
universal_newlines after_return (c ∷ s) =
    let rest = universal_newlines (c == 13) s in
    if c == 13 then 10 ∷ rest else if after_return && c == 10 then rest else c ∷ rest

-- `for line in f`, without the newline that ends each line.
unfoldable pub lines_of : Text → List Text
lines_of [] = []
lines_of (c ∷ s) = if c == 10 then [] ∷ lines_of s else cons_head c (lines_of s)

-- `[line.rstrip() for line in f]`
unfoldable pub read_lines : Text → List Text
unfolding rstrip universal_newlines lines_of
read_lines content = map rstrip (lines_of (universal_newlines false content))

-- `lines[-tail:] if tail and tail > 0 else lines`
unfoldable pub tail_of : Option ℕ → List Text → List Text
tail_of none lines = lines
tail_of (some zero) lines = lines
tail_of (some (suc n)) lines = take_last (suc n) lines

unfoldable pub no_logs_detail : Text → Text
no_logs_detail operation_id =
    codes "Logs for operation " & quoted operation_id & codes " not found."

-- Where there is no file, or open() raises OSError.
unfoldable pub buffered_logs : Text → Option ℕ → World → Outcome (List Text)
unfolding tail_of no_logs_detail
buffered_logs operation_id tail w = elim (get_record w operation_id) [
  | none ↦ raised (http status_404_not_found (no_logs_detail operation_id))
  | some r ↦ returned (tail_of tail r.log_buffer)
]

module _ (env : Environment) where
  unfoldable pub stored_logs : Text → Option ℕ → World → Outcome (List Text) × World
  unfolding buffered_logs read_lines tail_of
  stored_logs operation_id tail w = elim (Dict.get w.files operation_id) [
    | none ↦ (buffered_logs operation_id tail w, w)
    | some content ↦ (
      if env.open_fails w.opens
          then buffered_logs operation_id tail w
          else returned (tail_of tail (read_lines content)),
      record w { opens = w.opens + 1 },
    )
  ]

  unfoldable pub get_logs : Text → Option ℕ → World → Outcome (List Text) × World
  unfolding stored_logs has_log_path
  get_logs operation_id tail w =
      if has_log_path env operation_id
      then stored_logs operation_id tail w
      else (raised (http status_400_bad_request (invalid_id_detail operation_id)), w)
