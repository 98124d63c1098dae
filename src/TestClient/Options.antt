-- ===== src/TestClient/Options.antt =====
-- parse_options of test/test.c.
use vmnet_broker.Base.{
  ℕ, ◌+◌, ◌-◌, Bool, true, false, List, [], ◌∷◌, ◌++◌, CString, bytes, length, take, ltb, leb,
  if◌then◌else◌,
}
use vmnet_broker.TestClient.{
  max_interfaces, Cmd, pure, ◌>>=◌, ◌>>◌, emit, exit, fail, error_number, e2big, logged, Flag, help,
  quick_mode, missing_argument, invalid, Calls,
}

-- The static struct `opt`: the slots of network_names that are in use.
pub record Options : Type 0 where
  pub network_names : List CString
  pub quick : Bool

abbrev pub defaults : Options
defaults = record { network_names = []; quick = false }

abbrev pub shared : CString
shared = bytes "shared"

-- The loop over getopt_long's results; `usage` exits.
unfoldable pub parse_flags : List Flag → Options → Cmd Options
parse_flags [] opt = pure opt
parse_flags (help ∷ flags) opt = exit 0
parse_flags (quick_mode ∷ flags) opt = parse_flags flags (record opt { quick = true })
parse_flags (missing_argument ∷ flags) opt = exit 1
parse_flags (invalid ∷ flags) opt = exit 1

-- The loop over the positional arguments.
unfoldable pub parse_arguments : List CString → Options → Cmd Options
parse_arguments [] opt = pure opt
parse_arguments (name ∷ arguments) opt =
    let rest =
      parse_arguments arguments (record opt { network_names = opt.network_names ++ name ∷ [] }) in
    if leb max_interfaces (length opt.network_names)
    then fail "parse_options" (error_number e2big)
    else rest

abbrev pub or_shared : List CString → List CString
or_shared [] = shared ∷ []
or_shared names = names

-- sizeof(networks)
abbrev pub buffer_size : ℕ
buffer_size = 512

-- The buffer `networks`, up to its NUL, and `pos`.
pub record Buffer : Type 0 where
  pub text : CString
  pub pos : ℕ

-- `snprintf(networks + pos, size, "%s ", name)`: what stands in the buffer after it, and the length
-- that the whole text would have. An argument of a process is shorter than an `int` can count.
abbrev pub snprintf : Buffer → (size : ℕ) → (name : CString) → CString × ℕ
snprintf b size name =
    let whole = name ++ 32 ∷ [] in
    (if ltb 0 size then take b.pos b.text ++ take (size - 1) whole else b.text, length whole)

abbrev pub append_name : CString → Buffer → Buffer
append_name name b =
    let (text, n) = snprintf b (buffer_size - b.pos) name in
    record {
      text = text;
      pos = if ltb 0 n then if ltb (b.pos + n) buffer_size then b.pos + n else b.pos else b.pos;
    }

-- The loop that fills the buffer for the log.
unfoldable pub log_names : List CString → Buffer → Buffer
log_names [] b = b
log_names (name ∷ names) b = log_names names (append_name name b)

abbrev pub empty_buffer : Buffer
empty_buffer = record { text = []; pos = 0 }

unfoldable pub parse_options : Calls → Cmd Options
parse_options calls = do
  flagged ← parse_flags calls.flags defaults
  given ← parse_arguments calls.arguments flagged
  emit (logged (log_names (or_shared given.network_names) empty_buffer).text)
  pure (record given { network_names = or_shared given.network_names })
