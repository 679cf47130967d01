-- ===== src/Runner/Success.antt =====
-- When the commands of a pipeline in api/gem_api/services/runner.py have all succeeded.
pub mod Commands
use gem_gdc_emulation_enviro.Prelude.{
  Text, ℕ, zero, suc, ◌≡◌, refl, ◌∙◌, List, [], ◌∷◌, ◌++◌, true, false, Bool-cases, Option, none,
  some, inl, inr,
}
use gem_gdc_emulation_enviro.Exceptions.{Exception, Outcome, returned, raised}
use gem_gdc_emulation_enviro.Operations.Model.{OperationRecord}
use gem_gdc_emulation_enviro.Operations.World.{Environment, get_record}
use gem_gdc_emulation_enviro.Operations.Manager.{Update, update_operation}
use gem_gdc_emulation_enviro.Runner.Along.{
  IsPreorder, Along, Along-then, Along-pure, read_output-Along,
}
use gem_gdc_emulation_enviro.Runner.Machine.{
  ProcessEvent, ReturnCode, exited, signalled, is_failure, run, Command, Machine, Action, pure,
  raise, continue, call, ◌>>=◌, ◌>>◌, is_over, status_is_cancelled, interrupts,
}
use gem_gdc_emulation_enviro.Runner.Execute.{
  log, update, cancelled_meanwhile, read_output, check_exit,
}

-- No subprocess was started in between.
abbrev pub Quiet : Machine → Machine → Type 0
Quiet m n = (n.runs ≡ m.runs) × (n.executed ≡ m.executed)

pub Quiet-IsPreorder : IsPreorder Quiet
Quiet-IsPreorder = record {
  same = λ m. (refl, refl);
  composed = λ m n o (p, q) (p', q'). (p' ∙ p, q' ∙ q);
}

module _ (env : Environment) (k : Text) where
  pub log-Quiet : (line : Text) → Along Quiet (log env k line)
  unfolding log call
  log-Quiet line = record { at = λ m. (refl, refl) }

  pub update-Quiet : (u : Update) → Along Quiet (update env k u)
  unfolding update call
  update-Quiet u =
      Along-then Quiet Quiet-IsPreorder (call (update_operation env k u)) (pure tt)
        (record { at = λ m. (refl, refl) }) (Along-pure Quiet Quiet-IsPreorder tt)

  cancelled_meanwhile-Quiet : Along Quiet (cancelled_meanwhile env k)
  unfolding cancelled_meanwhile
  cancelled_meanwhile-Quiet = record {
    at = λ m. elim (Bool-cases (interrupts env (get_record m.world k))) [
      | inl e ↦ rw e (refl, refl)
      | inr e ↦ rw e (refl, refl)
    ];
  }

  pub read_output-Quiet :
      (events : List ProcessEvent) (buffer : List ℕ) → Along Quiet (read_output env k events buffer)
  read_output-Quiet =
      read_output-Along env k Quiet Quiet-IsPreorder log-Quiet (λ message. update-Quiet _)
        cancelled_meanwhile-Quiet

-- What holds of the machine if an action returned.
abbrev pub After : Outcome (Unit {0}) × Machine → (Machine → Type 0) → Type 0
After (returned x, n) q = q n
After (raised e, n) q = Unit {0}

pub After-always : (o : Outcome (Unit {0}) × Machine) (q : Machine → Type 0) → q o.1 → After o q
After-always (returned x, n) q h = h
After-always (raised e, n) q h = tt

pub After-map :
    (o : Outcome (Unit {0}) × Machine) (p q : Machine → Type 0)
    → After o p
    → ((n : Machine) → p n → q n)
    → After o q
After-map (returned x, n) p q h f = f n h
After-map (raised e, n) p q h f = tt

pub After-then :
    (m : Machine) (a b : Action (Unit {0})) (p q : Machine → Type 0)
    → After (a m) p
    → ((n : Machine) → p n → After (b n) q)
    → After ((a >> b) m) q
unfolding ◌>>◌ ◌>>=◌
After-then m a b p q h f = go (a m) h
  where
    go : (o : Outcome (Unit {0}) × Machine) → After o p → After (continue o λ _. b) q
    go (returned x, n) h = f n h
    go (raised e, n) h = tt

pub After-Quiet :
    (m : Machine) (a b : Action (Unit {0})) (q : Machine → Type 0)
    → Along Quiet a
    → ((n : Machine) → Quiet m n → After (b n) q)
    → After ((a >> b) m) q
After-Quiet m a b q quiet f =
    After-then m a b (Quiet m) q (After-always (a m) (Quiet m) (quiet.at m)) f

pub After-raise :
    (m : Machine) (a : Action (Unit {0})) (e : Exception) (q : Machine → Type 0)
    → After ((a >> raise e) m) q
After-raise m a e q =
    After-then m a (raise e) (λ n. Unit {0}) q (After-always (a m) (λ n. Unit {0}) tt) (λ n _. tt)

not_failure : (code : ReturnCode) → is_failure code ≡ false → code ≡ exited 0
not_failure (exited zero) e = refl
not_failure (exited (suc n)) e = cc e
not_failure (signalled n) e = cc e

cancelled_is_over : (o : Option OperationRecord) → status_is_cancelled o ≡ true → is_over o ≡ true
cancelled_is_over none e = refl
cancelled_is_over (some r) e = e

-- One subprocess was started, for this command, and it exited with 0.
pub record CleanRun (c : Command) (m n : Machine) : Type 0 where
  pub pid : ℕ
  pub events : List ProcessEvent
  pub ran : m.runs ≡ run pid events (exited 0) ∷ n.runs
  pub started : n.executed ≡ m.executed ++ c ∷ []

module _ (env : Environment) (k : Text) where
  -- What a command says of the machine behind it, if the operation was not cancelled.
  abbrev pub Cleanly : Command → Machine → Machine → Type 0
  Cleanly c m n = is_over (get_record n.world k) ≡ false → CleanRun c m n

  pub check_exit-After :
      (name : Text) (code : ReturnCode) (n : Machine)
      → After
          (check_exit env k name code n)
          λ o. is_over (get_record o.world k) ≡ false → (o ≡ n) × (code ≡ exited 0)
  unfolding check_exit
  check_exit-After name code n = elim (Bool-cases (status_is_cancelled (get_record n.world k))) [
    | inl e ↦ rw e (λ live. absurd (cc (cancelled_is_over (get_record n.world k) e, live)))
    | inr e ↦ rw e (elim (Bool-cases (is_failure code)) [
      | inl f ↦ rw f (After-raise n (log env k _) _ _)
      | inr f ↦ rw f (λ live. (refl, not_failure code f))
    ])
  ]
