-- ===== src/Xpc/Names.antt =====
-- The name of a peer, which the buffer of the context holds whole.
use vmnet_broker.Base.{
  ℕ, zero, suc, ◌+◌, ◌-◌, ◌*◌, ◌/◌, ◌%◌, ◌^◌, ◌<◌, ◌≤◌, ◌≡◌, refl, ap, true, subst, sym, ◌∙◌, inl,
  inr, [], ◌∷◌, ℤ, pos, CString, take, drop, length, arith, Bool-cases, ◌==◌,
}
use vmnet_broker.Xpc.{decimal, format_int, peer_name, init_context, max_digits}

-- The number that decimal digits stand for, read from the left behind `acc`.
abbrev pub parse : ℕ → CString → ℕ
parse acc [] = acc
parse acc (c ∷ cs) = parse (acc * 10 + (c - b'0')) cs

parse-decimal :
    (fuel n : ℕ) (rest : CString) → n < 10 ^ fuel → parse 0 (decimal fuel n rest) ≡ parse n rest
unfolding decimal
parse-decimal zero n rest h = ap (λ k. parse k rest) (omega arith)
parse-decimal (suc fuel) n rest h =
    let ih = parse-decimal fuel (n / 10) ((b'0' + n % 10) ∷ rest) (omega arith) in
    elim (Bool-cases (n / 10 == 0)) [
      | inl small ↦ ground (arith, small, ap (λ k. parse k rest) (digit small))
      | inr more ↦ ground (arith, more, ih, ap (λ k. parse k rest) whole)
    ]
  where
    digit : (n / 10 == 0) ≡ true → n % 10 ≡ n
    digit e = ground (arith, e)

    whole : n / 10 * 10 + (b'0' + n % 10 - b'0') ≡ n
    whole = omega arith

length-decimal :
    (fuel k n : ℕ) (rest : CString)
    → n < 10 ^ suc k
    → length (decimal fuel n rest) ≤ suc k + length rest
unfolding decimal
length-decimal zero k n rest h = omega arith
length-decimal (suc fuel) zero n rest h = ground arith
length-decimal (suc fuel) (suc k) n rest h =
    let ih = length-decimal fuel k (n / 10) ((b'0' + n % 10) ∷ rest) (omega arith) in
    ground (arith, ih)

take_all : (n : ℕ) (xs : CString) → length xs ≤ n → take n xs ≡ xs
take_all zero [] h = refl
take_all zero (x ∷ xs) h = absurd (omega arith)
take_all (suc n) [] h = refl
take_all (suc n) (x ∷ xs) h = ap (λ l. x ∷ l) (take_all n xs (omega arith))

init_context-take : (c : ℕ) (pid : ℤ) → (init_context c pid).name ≡ take 24 (peer_name pid)
unfolding init_context
init_context-take c pid = refl

format_int-pos : (n : ℕ) → format_int (pos n) ≡ decimal max_digits n []
unfolding format_int
format_int-pos n = refl

-- The name of a peer whose pid is less than 2^63 is whole in its buffer, and its digits read
-- back as the pid.
pub init_context-name :
    (c n : ℕ)
    → n < 2 ^ 63
    → ((init_context c (pos n)).name ≡ peer_name (pos n))
      × (parse 0 (drop 5 (init_context c (pos n)).name) ≡ n)
init_context-name c n h =
    let short : length (format_int (pos n)) ≤ 19 =
      subst (λ l. length l ≤ 19) (sym (format_int-pos n))
        (length-decimal 20 18 n [] (omega arith)) in
    let whole : (init_context c (pos n)).name ≡ peer_name (pos n) =
      init_context-take c (pos n) ∙ take_all 24 (peer_name (pos n)) (omega (arith, short)) in
    (
      whole,
      ap (λ l. parse 0 (drop 5 l)) whole
          ∙ ap (parse 0) (format_int-pos n)
          ∙ parse-decimal max_digits n [] (omega arith),
    )
