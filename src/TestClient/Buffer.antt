-- ===== src/TestClient/Buffer.antt =====
-- The buffer of test/test.c's parse_options that holds the names of the networks for the log.
use mathlib.Core.List.{append-nil, append_assoc}
use vmnet_broker.Base.{
  ℕ, zero, suc, ◌+◌, ◌-◌, ◌≤◌, ◌<◌, ◌≡◌, refl, sym, subst, ap, ◌∙◌, inl, inr, ◌⊎◌, true, false,
  List, [], ◌∷◌, ◌++◌, CString, length, take, ltb, if◌then◌else◌, arith, length-take_of_le,
  Bool-cases,
}
use vmnet_broker.TestClient.Options.{buffer_size, Buffer, append_name, log_names, empty_buffer}

-- What the format makes of a name.
abbrev entry : CString → CString
entry name = name ++ 32 ∷ []

-- The names, each with a space behind it.
abbrev pub written : List CString → CString
written [] = []
written (name ∷ names) = entry name ++ written names

-- The same of the names that fit in turn, with room for `room` bytes.
unfoldable pub kept : (room : ℕ) → List CString → CString
kept room [] = []
kept room (name ∷ names) =
    let more = kept (room - length (entry name)) names in
    let without = kept room names in
    if ltb (length (entry name)) room then entry name ++ more else without

length-append : (xs ys : CString) → length (xs ++ ys) ≡ length xs + length ys
length-append [] ys = omega arith
length-append (x ∷ xs) ys = omega (arith, length-append xs ys)

length-take_le : (n : ℕ) (xs : CString) → length (take n xs) ≤ n
length-take_le zero xs = omega arith
length-take_le (suc n) [] = omega arith
length-take_le (suc n) (x ∷ xs) = omega (arith, length-take_le n xs)

take_all : (n : ℕ) (xs : CString) → length xs ≤ n → take n xs ≡ xs
take_all zero [] h = refl
take_all (suc n) [] h = refl
take_all zero (x ∷ xs) h = absurd (omega arith)
take_all (suc n) (x ∷ xs) h = ap (λ l. x ∷ l) (take_all n xs (omega arith))

-- The text and its NUL are inside the buffer, and `pos` is inside the text.
abbrev pub IsInside : Buffer → Type 0
IsInside b = (length b.text < buffer_size) × (b.pos ≤ length b.text)

take-append_of_le : (n : ℕ) (xs ys : CString) → n ≤ length xs → take n (xs ++ ys) ≡ take n xs
take-append_of_le zero xs ys h = refl
take-append_of_le (suc n) [] ys h = absurd (omega (arith, h))
take-append_of_le (suc n) (x ∷ xs) ys h =
    ap (λ l. x ∷ l) (take-append_of_le n xs ys (omega (arith, h)))

take-take : (n : ℕ) (xs : CString) → take n (take n xs) ≡ take n xs
take-take n xs = take_all n (take n xs) (length-take_le n xs)

-- A name that fits behind `pos` is written there, and `pos` goes behind it.
module _ (name : CString) (b : Buffer) (inside : IsInside b) where
  positive : 0 < length (entry name)
  positive = omega (arith, length-append name (32 ∷ []))

  append_fits :
      b.pos + length (entry name) < buffer_size
      → append_name name b
        ≡ record { text = take b.pos b.text ++ entry name; pos = b.pos + length (entry name) }
  append_fits fits =
      let space : ltb 0 (buffer_size - b.pos) ≡ true = ground (arith, inside) in
      let some_written : ltb 0 (length (entry name)) ≡ true = ground (arith, positive) in
      let within : ltb (b.pos + length (entry name)) buffer_size ≡ true = ground (arith, fits) in
      rw
        (
          space,
          some_written,
          within,
          take_all (buffer_size - b.pos - 1) (entry name) (omega (arith, fits)),
        )
        refl

  append_cut :
      buffer_size ≤ b.pos + length (entry name)
      → append_name name b ≡ record {
        text = take b.pos b.text ++ take (buffer_size - b.pos - 1) (entry name);
        pos = b.pos;
      }
  append_cut full =
      let space : ltb 0 (buffer_size - b.pos) ≡ true = ground (arith, inside) in
      let some_written : ltb 0 (length (entry name)) ≡ true = ground (arith, positive) in
      let outside : ltb (b.pos + length (entry name)) buffer_size ≡ false = ground (arith, full) in
      rw (space, some_written, outside) refl

  -- The entry is behind what was kept before.
  abbrev Goes : Buffer → Type 0
  Goes c =
      IsInside c
      × (c.pos ≡ b.pos + length (entry name))
      × (take c.pos c.text ≡ take b.pos b.text ++ entry name)

  -- Nothing more is kept.
  abbrev Stays : Buffer → Type 0
  Stays c = IsInside c × (c.pos ≡ b.pos) × (take c.pos c.text ≡ take b.pos b.text)

  append_fits-Goes : b.pos + length (entry name) < buffer_size → Goes (append_name name b)
  append_fits-Goes fits =
      let front = length-take_of_le b.pos b.text inside.1 in
      let total = length-append (take b.pos b.text) (entry name) in
      subst Goes (sym (append_fits fits)) (
        (omega (arith, fits, front, total), omega (arith, front, total)),
        refl,
        take_all _ _ (omega (arith, front, total)),
      )

  append_cut-Stays : buffer_size ≤ b.pos + length (entry name) → Stays (append_name name b)
  append_cut-Stays full =
      let front = length-take_of_le b.pos b.text inside.1 in
      let rest = take (buffer_size - b.pos - 1) (entry name) in
      let total = length-append (take b.pos b.text) rest in
      let short = length-take_le (buffer_size - b.pos - 1) (entry name) in
      subst Stays (sym (append_cut full)) (
        (omega (arith, inside, front, total, short), omega (arith, front, total)),
        refl,
        take-append_of_le b.pos (take b.pos b.text) rest (omega (arith, front))
            ∙ take-take b.pos b.text,
      )

log_names-kept :
    (names : List CString) (b : Buffer)
    → IsInside b
    → IsInside (log_names names b)
      × (take (log_names names b).pos (log_names names b).text
          ≡ take b.pos b.text ++ kept (buffer_size - b.pos) names)
unfolding log_names kept
log_names-kept [] b inside = (inside, sym (append-nil (take b.pos b.text)))
log_names-kept (name ∷ names) b inside =
    elim (Bool-cases (ltb (length (entry name)) (buffer_size - b.pos))) [
      | inl shorter ↦
          let (inside', at, text) = append_fits-Goes name b inside (ground (arith, shorter)) in
          let (end, got) = log_names-kept names (append_name name b) inside' in
          (
            end,
            got
                ∙ ap (λ r. take (append_name name b).pos (append_name name b).text ++ kept r names)
                    (omega (arith, at))
                ∙ ap (λ l. l ++ kept (buffer_size - b.pos - length (entry name)) names) text
                ∙ rw shorter (append_assoc (take b.pos b.text) (entry name) _),
          )
      | inr longer ↦
          let (inside', at, text) = append_cut-Stays name b inside (ground (arith, longer)) in
          let (end, got) = log_names-kept names (append_name name b) inside' in
          (
            end,
            got
                ∙ ap (λ r. take (append_name name b).pos (append_name name b).text ++ kept r names)
                    (omega (arith, at))
                ∙ ap (λ l. l ++ kept (buffer_size - b.pos) names) text
                ∙ rw longer refl,
          )
    ]

log_names-written :
    (names : List CString) (b : Buffer)
    → b.pos ≡ length b.text
    → length b.text + length (written names) < buffer_size
    → (log_names names b).text ≡ b.text ++ written names
unfolding log_names
log_names-written [] b full room = sym (append-nil b.text)
log_names-written (name ∷ names) b full room =
    let total = length-append (entry name) (written names) in
    let grown = length-append b.text (entry name) in
    let same : take b.pos b.text ≡ b.text = take_all b.pos b.text (omega (arith, full)) in
    let added : append_name name b
        ≡ record { text = b.text ++ entry name; pos = b.pos + length (entry name) } =
      append_fits name b (omega (arith, room), omega (arith, full))
        (omega (arith, full, room, total))
      ∙ rw same refl in
    ap (λ c. (log_names names c).text) added
    ∙ log_names-written names
        (record { text = b.text ++ entry name; pos = b.pos + length (entry name) })
        (omega (arith, full, grown)) (omega (arith, room, total, grown))
    ∙ append_assoc b.text (entry name) (written names)

-- The text of the networks' names for the log, with its NUL, never exceeds the buffer. Up to
-- its position it is the names that fit in turn, each with a space behind it, and it is all
-- names unless they are too long for the buffer together.
pub log_names-fits :
    (names : List CString)
    → let b = log_names names empty_buffer in
      (length b.text < buffer_size)
      × (take b.pos b.text ≡ kept buffer_size names)
      × ((b.text ≡ written names) ⊎ (buffer_size ≤ length (written names)))
log_names-fits names =
    let ((inside, _), front) = log_names-kept names empty_buffer (omega arith, omega arith) in
    (
      inside,
      front,
      elim (Bool-cases (ltb (length (written names)) buffer_size)) [
        | inl e ↦ inl (log_names-written names empty_buffer refl (ground (arith, e)))
        | inr e ↦ inr (ground (arith, e))
      ],
    )
