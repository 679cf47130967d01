-- ===== src/Runner/Machine.antt =====
-- The state in which a pipeline of api/gem_api/services/runner.py runs: the operation manager, what
-- its subprocesses will do, and which commands it has started.
use gem_gdc_emulation_enviro.Prelude.{
  Text, codes, ℕ, zero, List, Option, none, some, Bool, true, false, not, ◌&&◌,
}
use gem_gdc_emulation_enviro.Prelude.Strings.{decimal}
use gem_gdc_emulation_enviro.Prelude.Dict.{Dict}
use gem_gdc_emulation_enviro.Exceptions.{Exception, Outcome, returned, raised, ◌&◌}
use gem_gdc_emulation_enviro.Operations.Model.{OperationRecord, is_terminal, is_cancelled}
use gem_gdc_emulation_enviro.Operations.World.{Environment, World}

-- What happens while a pipeline waits for output: a chunk arrives, or a user cancels the operation.
pub data ProcessEvent : Type 0 where
  chunk : List ℕ → ProcessEvent
  cancel : ProcessEvent

-- `process.returncode`: exited with a code, or killed by a signal, which is a negative code.
pub data ReturnCode : Type 0 where
  exited signalled : ℕ → ReturnCode

abbrev pub is_failure : ReturnCode → Bool
is_failure (exited zero) = false
is_failure _ = true

abbrev pub return_code_text : ReturnCode → Text
return_code_text (exited n) = decimal n
return_code_text (signalled n) = codes "-" & decimal n

-- A subprocess: create_subprocess_exec raises, or it has a pid, its output and its return code.
pub data Run : Type 0 where
  no_start : Exception → Run
  run : ℕ → List ProcessEvent → ReturnCode → Run

pub record Command : Type 0 where
  pub cmd : List Text
  pub cwd : Text
  pub env : Dict Text

pub record Machine : Type 0 where
  pub world : World
  -- the coming subprocesses, and whether a user cancels during the coming sleeps of a mock step
  pub runs : List Run
  pub naps : List Bool
  -- the commands that were started
  pub executed : List Command

abbrev pub Action {ℓ} : Type ℓ → Type ℓ
Action A = Machine → Outcome A × Machine

abbrev pub pure {ℓ} : {A : Type ℓ} → A → Action A
pure a m = (returned a, m)

abbrev pub raise {ℓ} : {A : Type ℓ} → Exception → Action A
raise e m = (raised e, m)

abbrev pub continue {ℓ κ} :
    {A : Type ℓ} {B : Type κ} → Outcome A × Machine → (A → Action B) → Outcome B × Machine
continue (returned a, m) f = f a m
continue (raised e, m) f = (raised e, m)

infixl 5 ◌>>=◌ ◌>>◌
unfoldable pub ◌>>=◌ {ℓ κ} : {A : Type ℓ} {B : Type κ} → Action A → (A → Action B) → Action B
◌>>=◌ a f m = continue (a m) f

unfoldable pub ◌>>◌ {ℓ κ} : {A : Type ℓ} {B : Type κ} → Action A → Action B → Action B
unfolding ◌>>=◌
◌>>◌ a b = a >>= λ _. b

-- A method of the manager.
abbrev pub in_world {ℓ} : {A : Type ℓ} → Outcome A × World → Machine → Outcome A × Machine
in_world (o, w) m = (o, record m { world = w })

unfoldable pub call {ℓ} : {A : Type ℓ} → (World → Outcome A × World) → Action A
call f m = in_world (f m.world) m

abbrev pub status_is_cancelled : Option OperationRecord → Bool
status_is_cancelled none = false
status_is_cancelled (some r) = is_cancelled r.status

-- `not record or record.status == CANCELLED`
abbrev pub is_over : Option OperationRecord → Bool
is_over none = true
is_over (some r) = is_cancelled r.status

abbrev has_live_task : Environment → Option ℕ → Bool
has_live_task env none = false
has_live_task env (some task) = not (env.is_done task)

-- Whether a cancellation cancels the background task, which then gets CancelledError where it waits.
abbrev pub interrupts : Environment → Option OperationRecord → Bool
interrupts env none = false
interrupts env (some r) = not (is_terminal r.status) && has_live_task env r.task
