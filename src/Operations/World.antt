-- ===== src/Operations/World.antt =====
-- The state of OperationManager in api/gem_api/services/operations.py with the log files on disk,
-- and what the manager reads from outside.
use gem_gdc_emulation_enviro.Prelude.{
  Text, codes, ℕ, ◌+◌, List, [], ◌∷◌, ◌++◌, Option, Bool, not, ◌||◌, is_empty, if◌then◌else◌,
  or_else,
}
use gem_gdc_emulation_enviro.Prelude.Strings.{contains}
use gem_gdc_emulation_enviro.Prelude.Dict
use gem_gdc_emulation_enviro.Prelude.Dict.{Dict}
use gem_gdc_emulation_enviro.Exceptions.{Outcome, raised, http, status_400_bad_request, ◌&◌, quoted}
use gem_gdc_emulation_enviro.Operations.Model.{DateTime, OperationRecord}

-- Readings: the k-th of datetime.now(UTC), and whether the k-th open() of a log file raises
-- OSError. A path resolves inside the log directory unless a symbolic link leads out of it.
pub record Environment : Type 0 where
  pub now : ℕ → DateTime
  pub open_fails : ℕ → Bool
  pub resolves_inside : Text → Bool
  pub max_log_buffer_lines : ℕ
  -- `process.returncode is None` for a pid, `task.done()` for a task
  pub is_running : ℕ → Bool
  pub is_done : ℕ → Bool

-- What the manager asks of the operating system and of asyncio.
pub data Effect : Type 0 where
  sigterm force_kill_later cancel_task : ℕ → Effect

pub record World : Type 0 where
  -- OperationManager._operations
  pub operations : Dict OperationRecord
  -- the content of {log_dir}/{operation_id}.log
  pub files : Dict Text
  -- how often the clock was read and a log file was opened
  pub clock : ℕ
  pub opens : ℕ
  pub effects : List Effect

-- OperationManager.__init__
abbrev pub empty_world : World
empty_world = record { operations = []; files = []; clock = 0; opens = 0; effects = [] }

abbrev pub get_record : World → Text → Option OperationRecord
get_record w operation_id = Dict.get w.operations operation_id

-- A change of the record that the dict holds at the id.
abbrev pub set_record : World → Text → OperationRecord → World
set_record w operation_id r = record w { operations = Dict.put w.operations operation_id r }

abbrev pub perform : Effect → World → World
perform e w = record w { effects = w.effects ++ e ∷ [] }

-- `not operation_id or "/" in operation_id or "\\" in operation_id or ".." in operation_id`
unfoldable pub is_bad_id : Text → Bool
unfolding contains
is_bad_id operation_id =
    is_empty operation_id
    || (contains operation_id (codes "/")
        || (contains operation_id (92 ∷ []) || contains operation_id (codes "..")))

-- Whether OperationManager._get_log_file_path raises. Both of its refusals raise the same.
unfoldable pub has_log_path : Environment → Text → Bool
unfolding is_bad_id
has_log_path env operation_id =
    not (is_bad_id operation_id || not (env.resolves_inside operation_id))

unfoldable pub invalid_id_detail : Text → Text
invalid_id_detail operation_id = codes "Invalid operation_id " & quoted operation_id & codes "."

unfoldable pub get_log_file_path : {A : Type 0} → Environment → Text → Outcome A → Outcome A
unfolding has_log_path
get_log_file_path env operation_id next =
    if has_log_path env operation_id
    then next
    else raised (http status_400_bad_request (invalid_id_detail operation_id))

abbrev newline : Text
newline = 10 ∷ []

-- open(log_path, "w") and one line: a failure is logged only.
unfoldable pub init_log_file : Environment → Text → Text → World → World
init_log_file env operation_id line w =
    let w' = record w { opens = w.opens + 1 } in
    if env.open_fails w.opens
    then w'
    else record w' { files = Dict.put w.files operation_id (line ++ newline) }

-- open(log_path, "a") and one line.
unfoldable pub append_log_file : Environment → Text → Text → World → World
append_log_file env operation_id line w =
    let w' = record w { opens = w.opens + 1 } in
    let content = or_else (Dict.get w.files operation_id) [] in
    if env.open_fails w.opens
    then w'
    else record w' { files = Dict.put w.files operation_id (content ++ line ++ newline) }
