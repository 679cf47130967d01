-- ===== src/Operations/Logs/Mirror.antt =====
-- The log of an operation in api/gem_api/services/operations.py as a list of lines, which its file and
-- its buffer both represent.
use gem_gdc_emulation_enviro.Regex.Words.{all-append}
use gem_gdc_emulation_enviro.Prelude.{
  zero, ◌⊎◌, ◌≤◌, Text, codes, ℕ, ◌+◌, ◌/◌, ◌%◌, ◌-◌, ◌≡◌, ◌≢◌, refl, sym, ap, ◌∙◌, List, [], ◌∷◌,
  ◌++◌, append_assoc, Option, none, some, true, false, all, All, All-append, take_last, drop,
  length, drop-drop, drop-append, length-append, length-drop, arith, Bool-cases, inl, inr,
  if◌then◌else◌, or_else, is_empty, text_eq_refl,
}
use gem_gdc_emulation_enviro.Prelude.Strings.{rstrip, starts_with, cons_stripped}
use gem_gdc_emulation_enviro.Prelude.Strings.Stripping.{rstrip-rstrip}
use gem_gdc_emulation_enviro.Prelude.Dict
use gem_gdc_emulation_enviro.Prelude.Dict.{get-put, values}
use gem_gdc_emulation_enviro.Exceptions.{returned, ◌&◌}
use gem_gdc_emulation_enviro.Operations.Model.{
  OperationRecord, OperationType, cluster_create, cluster_delete, workstation_create,
  workstation_delete, edge_router_create, edge_router_delete, DateTime, two_digits, buffer_line,
  new_record, stamp, type_text,
}
use gem_gdc_emulation_enviro.Operations.World.{
  Environment, World, get_record, has_log_path, append_log_file, init_log_file,
}
use gem_gdc_emulation_enviro.Operations.Manager.{
  find_conflict, register_operation, register_new, init_line, format_line, append_line, append_log,
  publish_to,
}
use gem_gdc_emulation_enviro.Operations.Manager.Views.{get-put_self}
use gem_gdc_emulation_enviro.Operations.Logs.{suc, tail_of, buffered_logs, stored_logs, get_logs}
use gem_gdc_emulation_enviro.Operations.Logs.Lines.{
  is_line_code, IsLogLine, file_text, file_text-append, read_lines-file_text,
}

-- The file of an operation holds these lines, and its buffer the last of them.
pub record Mirrors (w : World) (k : Text) (ls : List Text) : Type 0 where
  pub op : OperationRecord
  pub held : get_record w k ≡ some op
  pub file : Dict.get w.files k ≡ some (file_text ls)
  pub buffer : op.log_buffer ≡ take_last op.max_buffer_lines ls
  pub lines : All IsLogLine ls

-- What get_logs can see of the lines: all of them, or the last ones if the file cannot be opened.
abbrev pub visible : Environment → World → ℕ → List Text → List Text
visible env w max_lines ls = if env.open_fails w.opens then take_last max_lines ls else ls

-- Which lines are left out: none without a `tail` or with 0, and otherwise as few as leave `tail`.
abbrev pub IsRest : Option ℕ → List Text → List Text → Type 0
IsRest none earlier shown = earlier ≡ []
IsRest (some zero) earlier shown = earlier ≡ []
IsRest (some (suc n)) earlier shown =
    (length shown ≤ suc n) × ((length shown ≡ suc n) ⊎ (earlier ≡ []))

-- What is shown of these lines is the end of them.
pub record Shows (tail : Option ℕ) (lines shown : List Text) : Type 0 where
  pub earlier : List Text
  pub split : earlier ++ shown ≡ lines
  pub size : IsRest tail earlier shown

before-drop : (n : ℕ) (xs : List Text) → n ≤ length xs → (ys : List Text) × (ys ++ drop n xs ≡ xs)
before-drop zero xs h = ([], refl)
before-drop (suc n) [] h = absurd (omega arith)
before-drop (suc n) (x ∷ xs) h =
    let (ys, e) = before-drop n xs (omega arith) in (x ∷ ys, ap (λ (t : List Text). x ∷ t) e)

drop-Shows :
    (m n : ℕ) (lines : List Text)
    → length lines - suc n ≡ m
    → Shows (some (suc n)) lines (drop m lines)
drop-Shows zero n lines h = record { earlier = []; split = refl; size = (omega arith, inr refl) }
drop-Shows (suc k) n lines h =
    let (ys, e) = before-drop (suc k) lines (omega arith) in
    let rest : length (drop (suc k) lines) ≡ suc n = omega (arith, length-drop (suc k) lines) in
    record { earlier = ys; split = e; size = (omega arith, inl rest) }

tail_of-Shows : (tail : Option ℕ) (lines : List Text) → Shows tail lines (tail_of tail lines)
unfolding tail_of
tail_of-Shows none lines = record { earlier = []; split = refl; size = refl }
tail_of-Shows (some zero) lines = record { earlier = []; split = refl; size = refl }
tail_of-Shows (some (suc n)) lines = drop-Shows _ n lines refl

get_logs-tail_of :
    (env : Environment) (k : Text) (tail : Option ℕ) (w : World) (ls : List Text)
    → (log : Mirrors w k ls) → has_log_path env k ≡ true
    → (get_logs env k tail w).0 ≡ returned (tail_of tail (visible env w log.op.max_buffer_lines ls))
unfolding get_logs
get_logs-tail_of env k tail w ls log path =
    rw (path, get_logs)
      (elim (Bool-cases (env.open_fails w.opens)) [
        | inl closed ↦
            rw (log.file, stored_logs, closed)
              (rw (log.held, buffered_logs) (ap (λ l. returned (tail_of tail l)) log.buffer))
        | inr opened ↦
            rw (log.file, stored_logs, opened)
              (ap (λ l. returned (tail_of tail l)) (read_lines-file_text ls log.lines))
      ])

-- Where the file and the buffer of an operation represent a log, get_logs returns its lines in order:
-- the last `tail` of them where there are more and `tail` is not 0, and otherwise all. If the file
-- cannot be opened, it does so for the lines that the buffer keeps, the last ones.
pub get_logs-Mirrors :
    (env : Environment) (k : Text) (tail : Option ℕ) (w : World) (ls : List Text)
    → (log : Mirrors w k ls) → has_log_path env k ≡ true
    → (shown : List Text) × ((get_logs env k tail w).0 ≡ returned shown)
      × Shows tail (visible env w log.op.max_buffer_lines ls) shown
get_logs-Mirrors env k tail w ls log path =
    (_, get_logs-tail_of env k tail w ls log path, tail_of-Shows tail _)

-- The last lines, behind one more.
take_last-append :
    {A : Type 0} (m : ℕ) (xs : List A) (x : A)
    → take_last m (take_last m xs ++ x ∷ []) ≡ take_last m (xs ++ x ∷ [])
take_last-append m xs x =
    let n = length xs - m in
    let k = length (drop n xs ++ x ∷ []) - m in
    let both : n + k ≡ length (xs ++ x ∷ []) - m =
      omega
        (arith, length-append (drop n xs) (x ∷ []), length-append xs (x ∷ []), length-drop n xs) in
    ap (drop k) (sym (drop-append n xs (x ∷ []) (omega arith)))
    ∙ drop-drop k n (xs ++ x ∷ [])
    ∙ ap (λ (i : ℕ). drop i (xs ++ x ∷ [])) both

cons_stripped-cons : (c : ℕ) (t : Text) → t ≢ [] → cons_stripped c t ≡ c ∷ t
cons_stripped-cons c [] ne = absurd (ne refl)
cons_stripped-cons c (d ∷ t) ne = refl

append-ne-nil : (a b : Text) → b ≢ [] → a ++ b ≢ []
append-ne-nil [] b ne = ne
append-ne-nil (c ∷ a) b ne = λ h. cc h

rstrip-append : (a b : Text) → b ≢ [] → rstrip b ≡ b → rstrip (a ++ b) ≡ a ++ b
unfolding rstrip
rstrip-append [] b ne e = e
rstrip-append (c ∷ a) b ne e =
    rw (rstrip-append a b ne e) (cons_stripped-cons c (a ++ b) (append-ne-nil a b ne))

-- A line that format_line returns has no white space at its end.
format_line_stripped :
    (now : DateTime) (line l : Text) → format_line now line ≡ some l → rstrip l ≡ l
unfolding format_line
format_line_stripped now line l h =
    let s = rstrip line in
    elim (Bool-cases (is_empty s)) [
      | inl e ↦ cc (rw e at h)
      | inr e ↦ elim (Bool-cases (starts_with s (codes "[20"))) [
        | inl f ↦ let l_is : l ≡ s = sym (some_inj (rw (e, f) at h)) in rw l_is (rstrip-rstrip line)
        | inr f ↦
            let l_is : l ≡ codes "[" & stamp now & codes "] " & s =
              sym (some_inj (rw (e, f) at h)) in
            rw l_is (
              rstrip-append (codes "[") (stamp now & codes "] " & s)
                (append-ne-nil (stamp now) (codes "] " & s) (λ h. cc h))
                (rstrip-append (stamp now) (codes "] " & s) (λ h. cc h)
                  (rstrip-append (codes "] ") s (filled s e) (rstrip-rstrip line))))
      ]
    ]
  where
    some_inj : {a b : Text} → some a ≡ some b → a ≡ b
    some_inj e = cc

    filled : (s : Text) → is_empty s ≡ false → s ≢ []
    filled [] e = λ h. cc e
    filled (c ∷ s) e = λ h. cc h

-- A log line that append_log keeps.
module _ (env : Environment) (k line l : Text) (w : World) (ls : List Text) (log : Mirrors w k ls)
    (path : has_log_path env k ≡ true) (opened : env.open_fails w.opens ≡ false)
    (kept : format_line (env.now w.clock) line ≡ some l)
    (one_line : all is_line_code l ≡ true) where
  -- append_log adds its line, formatted, to the log that the file and the buffer represent. The
  -- conditions are that the id has a log file, which can be opened, and that the formatted line is not
  -- empty and holds no line break.
  pub append_log-Mirrors : Mirrors (append_log env k line w).1 k (ls ++ l ∷ [])
  unfolding append_log append_line append_log_file buffer_line
  append_log-Mirrors =
      let content : or_else (Dict.get w.files k) [] ++ l ++ 10 ∷ [] ≡ file_text (ls ++ l ∷ []) =
        rw log.file (append_assoc (file_text ls) l (10 ∷ []) ∙ file_text-append ls l) in
      rw (log.held, append_log, kept, path, opened)
        (record {
          op = publish_to (some l) (buffer_line l log.op);
          held = get-put_self _ k _;
          file = rw (get-put w.files k k _, text_eq_refl k) (ap some content);
          buffer =
              ap (λ b. take_last log.op.max_buffer_lines (b ++ l ∷ [])) log.buffer
              ∙ take_last-append log.op.max_buffer_lines ls l;
          lines = All-append IsLogLine ls (l ∷ []) log.lines (
            record {
              one_line = one_line;
              stripped = format_line_stripped (env.now w.clock) line l kept;
            },
            tt,
          );
        })

digit-line : (n : ℕ) → is_line_code (48 + n % 10) ≡ true
digit-line n = ground arith

two_digits-line : (n : ℕ) → all is_line_code (two_digits n) ≡ true
two_digits-line n = rw (digit-line (n / 10), digit-line n) refl

stamp-line : (t : DateTime) → all is_line_code (stamp t) ≡ true
unfolding stamp
stamp-line t = simp digit-line

type_text-line : (t : OperationType) → all is_line_code (type_text t) ≡ true
type_text-line cluster_create = refl
type_text-line cluster_delete = refl
type_text-line workstation_create = refl
type_text-line workstation_delete = refl
type_text-line edge_router_create = refl
type_text-line edge_router_delete = refl

-- A line, and that it is not empty.
record IsFilledLine (t : Text) : Type 0 where
  filled : t ≢ []
  line : IsLogLine t

append-IsFilledLine :
    (a b : Text) → all is_line_code a ≡ true → IsFilledLine b → IsFilledLine (a ++ b)
append-IsFilledLine a b h s = record {
  filled = append-ne-nil a b s.filled;
  line = record {
    one_line = all-append is_line_code a b h s.line.one_line;
    stripped = rstrip-append a b s.filled s.line.stripped;
  };
}

period-IsFilledLine : IsFilledLine (codes ".")
unfolding rstrip
period-IsFilledLine = record {
  filled = λ h. cc h;
  line = record { one_line = refl; stripped = refl };
}

init_line-IsLogLine :
    (r : OperationRecord)
    → all is_line_code r.operation_id ≡ true
    → all is_line_code r.target_resource ≡ true
    → IsLogLine (init_line r)
unfolding init_line
init_line-IsLogLine r id target =
    let written = append-IsFilledLine (codes "[") _ refl (
      append-IsFilledLine (stamp r.created_at) _ (stamp-line r.created_at) (
        append-IsFilledLine (codes "] Registered operation ") _ refl (
          append-IsFilledLine r.operation_id _ id (
            append-IsFilledLine (codes " (") _ refl (
              append-IsFilledLine (type_text r.operation_type) _ (type_text-line r.operation_type) (
                append-IsFilledLine (codes ") on ") _ refl (
                  append-IsFilledLine r.target_resource (codes ".") target
                    period-IsFilledLine))))))) in
    written.line

-- A registration that is accepted starts a log of one line, which its file and its buffer represent.
-- The conditions are that the resource is free, that the id has a log file, which can be opened, and
-- that neither the id nor the target holds a line break.
pub register_operation-Mirrors :
    (env : Environment) (k : Text) (ty : OperationType) (target step msg : Text) (w : World)
    → find_conflict (values w.operations) target ≡ none
    → has_log_path env k ≡ true
    → env.open_fails w.opens ≡ false
    → all is_line_code k ≡ true
    → all is_line_code target ≡ true
    → (first : Text) × Mirrors (register_operation env k ty target step msg w).1 k (first ∷ [])
unfolding register_operation register_new init_log_file buffer_line new_record
register_operation-Mirrors env k ty target step msg w free path opened id_line target_line =
    let r =
      new_record k ty target step msg env.max_log_buffer_lines (env.now w.clock)
        (env.now (w.clock + 1)) in
    (
      init_line r,
      rw (free, register_operation, path, opened)
          (record {
            op = buffer_line (init_line r) r;
            held = get-put_self _ k _;
            file = rw (get-put w.files k k _, text_eq_refl k) refl;
            buffer = refl;
            lines = (init_line-IsLogLine r id_line target_line, tt);
          }),
    )
