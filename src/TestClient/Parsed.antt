-- ===== src/TestClient/Parsed.antt =====
-- What parse_options of test/test.c makes of the command line.
use mathlib.Core.List.{append-nil, append_assoc}
use vmnet_broker.Base.{
  suc, ◌+◌, ◌≤◌, ◌≡◌, refl, sym, ap, ◌∙◌, inl, inr, true, List, [], ◌∷◌, ◌++◌, CString, length, leb,
  if◌then◌else◌, arith, Bool-cases,
}
use vmnet_broker.TestClient.{
  max_interfaces, lines, logged, Session, Flag, help, quick_mode, missing_argument, invalid, Calls,
  initial_session,
}
use vmnet_broker.TestClient.Options.{
  Options, parse_flags, parse_arguments, parse_options, or_shared, log_names, empty_buffer,
  defaults,
}
use vmnet_broker.TestClient.Ending.{
  Ends, returns, weaken, exits, by_usage, too_many, bind, fail-Ends, is_quick, usage,
}

length-snoc : (xs : List CString) (x : CString) → length (xs ++ x ∷ []) ≡ suc (length xs)
length-snoc [] x = refl
length-snoc (y ∷ xs) x = ap suc (length-snoc xs x)

length-or_shared :
    (xs : List CString) → length xs ≤ max_interfaces → length (or_shared xs) ≤ max_interfaces
length-or_shared [] h = omega arith
length-or_shared (x ∷ xs) h = h

module _ (calls : Calls) where
  parse_flags-Ends :
      (flags : List Flag) (opt : Options) (s : Session)
      → usage calls.flags ≡ usage flags
      → is_quick calls.flags ≡ (if opt.quick then true else is_quick flags)
      → s.log ≡ []
      → Ends calls
          (λ o s'.
            (s' ≡ s) × (o.network_names ≡ opt.network_names) × (o.quick ≡ is_quick calls.flags))
          (parse_flags flags opt s)
  unfolding parse_flags
  parse_flags-Ends [] opt s asked quick quiet = returns (refl, refl, ground (arith, quick))
  parse_flags-Ends (help ∷ flags) opt s asked quick quiet = exits (by_usage asked quiet)
  parse_flags-Ends (quick_mode ∷ flags) opt s asked quick quiet =
      parse_flags-Ends flags (record opt { quick = true }) s asked (ground (arith, quick)) quiet
  parse_flags-Ends (missing_argument ∷ flags) opt s asked quick quiet = exits (by_usage asked quiet)
  parse_flags-Ends (invalid ∷ flags) opt s asked quick quiet = exits (by_usage asked quiet)

  parse_arguments-Ends :
      (arguments : List CString) (opt : Options) (s : Session)
      → length opt.network_names + length arguments ≡ length calls.arguments
      → length opt.network_names ≤ max_interfaces
      → lines s.log ≡ []
      → Ends calls
          (λ o s'.
            (s' ≡ s)
            × (o.network_names ≡ opt.network_names ++ arguments)
            × (length o.network_names ≤ max_interfaces)
            × (o.quick ≡ opt.quick))
          (parse_arguments arguments opt s)
  unfolding parse_arguments
  parse_arguments-Ends [] opt s total room quiet =
      returns (refl, sym (append-nil opt.network_names), room, refl)
  parse_arguments-Ends (name ∷ arguments) opt s total room quiet =
      elim (Bool-cases (leb max_interfaces (length opt.network_names))) [
        | inl full ↦ rw full (fail-Ends _ _ s (too_many (ground (arith, full, total))) quiet)
        | inr free ↦ rw free (
            weaken
              (parse_arguments-Ends arguments
                (record opt { network_names = opt.network_names ++ name ∷ [] }) s
                (omega (arith, length-snoc opt.network_names name, total))
                (ground (arith, length-snoc opt.network_names name, free)) quiet)
              λ o s' (same, names, within, quick).
                (same, names ∙ append_assoc opt.network_names (name ∷ []) arguments, within, quick))
      ]

  -- The options that main goes on with.
  pub record Parsed (o : Options) (s : Session) : Type 0 where
    pub names : o.network_names ≡ or_shared calls.arguments
    pub within : length o.network_names ≤ max_interfaces
    pub quick : o.quick ≡ is_quick calls.flags
    pub same : s ≡ record initial_session {
      log = logged (log_names (or_shared calls.arguments) empty_buffer).text ∷ [];
    }

  pub parse_options-Ends : Ends calls Parsed (parse_options calls initial_session)
  unfolding parse_options
  parse_options-Ends =
      bind (parse_flags-Ends calls.flags defaults initial_session refl refl refl)
        λ o s (same, none_yet, quick).
          bind
            (parse_arguments-Ends calls.arguments o s (rw none_yet (omega arith))
              (rw none_yet (omega arith)) (rw same refl))
            λ o' s' (same', names, within, quick').
              let given : o'.network_names ≡ calls.arguments =
                names ∙ ap (λ l. l ++ calls.arguments) none_yet in
              returns (record {
                names = ap or_shared given;
                within = length-or_shared o'.network_names within;
                quick = quick' ∙ quick;
                same = rw (given, same', same) refl;
              })
