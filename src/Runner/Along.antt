-- ===== src/Runner/Along.antt =====
-- What the actions of api/gem_api/services/runner.py that log and update do to the machine, as a
-- relation between the machine before and behind them.
pub mod Commands
use gem_gdc_emulation_enviro.Prelude.{
  Text, ℕ, List, [], ◌∷◌, ◌++◌, Option, none, some, Bool, true, false, if◌then◌else◌, is_empty, ltb,
  length,
}
use gem_gdc_emulation_enviro.Exceptions.{Exception, Outcome, returned, raised}
use gem_gdc_emulation_enviro.Operations.World.{Environment}
use gem_gdc_emulation_enviro.Operations.Manager.{Update}
use gem_gdc_emulation_enviro.Runner.Machine.{
  ProcessEvent, chunk, cancel, Machine, Action, pure, raise, continue, ◌>>=◌, ◌>>◌,
}
use gem_gdc_emulation_enviro.Runner.Output.{cut_lines, buffer_limit, text_of_line, progress_message}
use gem_gdc_emulation_enviro.Runner.Execute.{
  no_update, log, update, cancelled_meanwhile, log_raw, report_progress, handle_line, handle_lines,
  flush, read_output,
}

-- A relation that composes.
pub record IsPreorder (R : Machine → Machine → Type 0) : Type 0 where
  pub same : (m : Machine) → R m m
  pub composed : (m n o : Machine) → R m n → R n o → R m o

pub record Along {ℓ} {A : Type ℓ} (R : Machine → Machine → Type 0) (a : Action A) : Type ℓ where
  pub at : (m : Machine) → R m (a m).1

module _ (R : Machine → Machine → Type 0) (r : IsPreorder R) where
  Along-continue {ℓ κ} :
      {A : Type ℓ} {B : Type κ} (m : Machine) (o : Outcome A × Machine) (f : A → Action B)
      → R m o.1
      → ((a : A) → Along R (f a))
      → R m (continue o f).1
  Along-continue m (returned a, n) f h kf = r.composed m n (f a n).1 h ((kf a).at n)
  Along-continue m (raised e, n) f h kf = h

  pub Along-bind {ℓ κ} :
      {A : Type ℓ} {B : Type κ} (a : Action A) (f : A → Action B)
      → Along R a
      → ((x : A) → Along R (f x))
      → Along R (a >>= f)
  unfolding ◌>>=◌
  Along-bind a f ka kf = record { at = λ m. Along-continue m (a m) f (ka.at m) kf }

  pub Along-then {ℓ κ} :
      {A : Type ℓ} {B : Type κ} (a : Action A) (b : Action B)
      → Along R a
      → Along R b
      → Along R (a >> b)
  unfolding ◌>>◌
  Along-then a b ka kb = Along-bind a (λ _. b) ka (λ _. kb)

  -- Behind a first action at one machine.
  pub Along-after {ℓ κ} :
      {A : Type ℓ} {B : Type κ} (a : Action A) (b : Action B) (m : Machine)
      → R m (a m).1
      → Along R b
      → R m ((a >> b) m).1
  unfolding ◌>>◌ ◌>>=◌
  Along-after a b m h kb = Along-continue m (a m) (λ _. b) h (λ _. kb)

  pub Along-pure {ℓ} : {A : Type ℓ} (a : A) → Along R (pure a)
  Along-pure a = record { at = λ m. r.same m }

  pub Along-raise {ℓ} : {A : Type ℓ} (e : Exception) → Along R (raise {A = A} e)
  Along-raise e = record { at = λ m. r.same m }

pub Along-if {ℓ} :
    {A : Type ℓ} (R : Machine → Machine → Type 0) (b : Bool) (a c : Action A)
    → Along R a
    → Along R c
    → Along R (if b then a else c)
Along-if R true a c ka kc = ka
Along-if R false a c ka kc = kc

module _ (env : Environment) (k : Text) (R : Machine → Machine → Type 0) (r : IsPreorder R)
    (log-Along : (line : Text) → Along R (log env k line))
    (report-Along : (message : Text)
      → Along R (update env k (record no_update { message = some message })))
    (cancelled_meanwhile-Along : Along R (cancelled_meanwhile env k)) where
  log_raw-Along : (raw : List ℕ) → Along R (log_raw env k raw)
  unfolding log_raw
  log_raw-Along raw =
      Along-if R (is_empty (text_of_line raw)) (pure tt) (log env k (text_of_line raw))
        (Along-pure R r tt) (log-Along _)

  report_progress-Along : (o : Option Text) → Along R (report_progress env k o)
  unfolding report_progress
  report_progress-Along none = Along-pure R r tt
  report_progress-Along (some message) = report-Along message

  handle_line-Along : (raw : List ℕ) → Along R (handle_line env k raw)
  unfolding handle_line
  handle_line-Along raw =
      let line = text_of_line raw in
      Along-if R (is_empty line) (pure tt)
        (log env k line >> report_progress env k (progress_message line)) (Along-pure R r tt)
        (Along-then R r (log env k line) (report_progress env k (progress_message line))
          (log-Along line) (report_progress-Along (progress_message line)))

  handle_lines-Along : (raws : List (List ℕ)) → Along R (handle_lines env k raws)
  unfolding handle_lines
  handle_lines-Along [] = Along-pure R r tt
  handle_lines-Along (raw ∷ raws) =
      Along-then R r (handle_line env k raw) (handle_lines env k raws) (handle_line-Along raw)
        (handle_lines-Along raws)

  flush-Along : (rest : List ℕ) → Along R (flush env k rest)
  unfolding flush
  flush-Along rest =
      Along-if R (ltb buffer_limit (length rest)) (log_raw env k rest >> pure []) (pure rest)
        (Along-then R r (log_raw env k rest) (pure []) (log_raw-Along rest) (Along-pure R r []))
        (Along-pure R r rest)

  last_line-Along :
      (buffer : List ℕ) → Along R (if is_empty buffer then pure tt else log_raw env k buffer)
  last_line-Along buffer =
      Along-if R (is_empty buffer) (pure tt) (log_raw env k buffer) (Along-pure R r tt)
        (log_raw-Along buffer)

  pub read_output-Along :
      (events : List ProcessEvent) (buffer : List ℕ) → Along R (read_output env k events buffer)
  unfolding read_output
  read_output-Along [] buffer = last_line-Along buffer
  read_output-Along (cancel ∷ events) buffer =
      Along-then R r (cancelled_meanwhile env k) (read_output env k events buffer)
        cancelled_meanwhile-Along (read_output-Along events buffer)
  read_output-Along (chunk [] ∷ events) buffer = last_line-Along buffer
  read_output-Along (chunk (b ∷ bytes) ∷ events) buffer =
      let cut = cut_lines (buffer ++ b ∷ bytes) in
      Along-then R r (handle_lines env k cut.0)
        (flush env k cut.1 >>= λ rest. read_output env k events rest) (handle_lines-Along cut.0)
        (Along-bind R r (flush env k cut.1) (λ rest. read_output env k events rest)
          (flush-Along cut.1) (λ rest. read_output-Along events rest))
