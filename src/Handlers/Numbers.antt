-- ===== src/Handlers/Numbers.antt =====
-- `strconv.FormatInt` as the handlers use it, against `strconv.ParseInt` as package auth does.
use Prim.Native.Char.{code}
use Prim.Native.Nat.{◌/◌, ◌*◌}
use etemsg_server.Base.{
  ℕ, zero, suc, ◌+◌, ◌-◌, ◌%◌, ◌^◌, ◌<◌, pos, negsuc, String, Bool, true, false, some, ◌≡◌, refl,
  ap, sym, ◌∙◌, ◌⊎◌, inl, inr, arith, ◌=ℕ◌,
}
use etemsg_server.Auth.Signed.{parse_digits, parse_unsigned, parse_int64, to_int64}
use etemsg_server.Handlers.Texts.{digit_char, digits, format_int}

parse-digit_char :
    (acc d : ℕ) (s : String)
    → d < 10
    → parse_digits acc (String.◌∷◌ (digit_char d) s) ≡ parse_digits (acc * 10 + d) s
unfolding parse_digits
parse-digit_char acc zero s h = refl
parse-digit_char acc (suc zero) s h = refl
parse-digit_char acc (suc (suc zero)) s h = refl
parse-digit_char acc (suc (suc (suc zero))) s h = refl
parse-digit_char acc (suc (suc (suc (suc zero)))) s h = refl
parse-digit_char acc (suc (suc (suc (suc (suc zero))))) s h = refl
parse-digit_char acc (suc (suc (suc (suc (suc (suc zero)))))) s h = refl
parse-digit_char acc (suc (suc (suc (suc (suc (suc (suc zero))))))) s h = refl
parse-digit_char acc (suc (suc (suc (suc (suc (suc (suc (suc zero)))))))) s h = refl
parse-digit_char acc (suc (suc (suc (suc (suc (suc (suc (suc (suc zero))))))))) s h = refl
parse-digit_char acc (suc (suc (suc (suc (suc (suc (suc (suc (suc (suc d)))))))))) s h =
    absurd (omega arith)

zero_or_suc : (n : ℕ) → (n ≡ 0) ⊎ ((m : ℕ) × (n ≡ suc m))
zero_or_suc zero = inl refl
zero_or_suc (suc m) = inr (m, refl)

last_digit :
    (fuel n : ℕ) (acc : String)
    → n / 10 ≡ 0
    → parse_digits 0 (digits (suc fuel) n acc) ≡ parse_digits n acc
unfolding digits
last_digit fuel n acc e =
    rw (e, digits)
      (parse-digit_char 0 (n % 10) acc (omega arith)
        ∙ ap (λ k. parse_digits k acc) (omega (arith, e)))

smaller : (f n m : ℕ) → n / 10 ≡ suc m → n < 10 ^ suc (suc f) → suc m < 10 ^ suc f
smaller f n m e h = omega (arith, e, h)

parse-digits :
    (fuel n : ℕ) (acc : String)
    → n < 10 ^ suc fuel
    → parse_digits 0 (digits (suc fuel) n acc) ≡ parse_digits n acc
unfolding digits
parse-digits zero n acc h = elim (zero_or_suc (n / 10)) [
  | inl e ↦ last_digit zero n acc e
  | inr (m, e) ↦ absurd (omega (arith, e, h))
]
parse-digits (suc f) n acc h = elim (zero_or_suc (n / 10)) [
  | inl e ↦ last_digit (suc f) n acc e
  | inr (m, e) ↦
      rw (e, digits)
        (parse-digits f (suc m) (String.◌∷◌ (digit_char (n % 10)) acc) (smaller f n m e h)
          ∙ parse-digit_char (suc m) (n % 10) acc (omega arith)
          ∙ ap (λ k. parse_digits k acc) (omega (arith, e)))
]

-- A digit stands first.
first_digit :
    (fuel n : ℕ) (acc : String)
    → (d : ℕ) × (t : String) × (d < 10) × (digits (suc fuel) n acc ≡ String.◌∷◌ (digit_char d) t)
unfolding digits
first_digit zero n acc = elim (zero_or_suc (n / 10)) [
  | inl e ↦ (n % 10, acc, omega arith, rw (e, digits) refl)
  | inr (m, e) ↦ (n % 10, acc, omega arith, rw (e, digits) refl)
]
first_digit (suc f) n acc = elim (zero_or_suc (n / 10)) [
  | inl e ↦ (n % 10, acc, omega arith, rw (e, digits) refl)
  | inr (m, e) ↦
      let (d, t, small, shown) = first_digit f (suc m) (String.◌∷◌ (digit_char (n % 10)) acc) in
      (d, t, small, rw (e, digits) shown)
]

no_sign :
    (d : ℕ) → d < 10 → (code (digit_char d) =ℕ 45 ≡ false) × (code (digit_char d) =ℕ 43 ≡ false)
no_sign zero h = (refl, refl)
no_sign (suc zero) h = (refl, refl)
no_sign (suc (suc zero)) h = (refl, refl)
no_sign (suc (suc (suc zero))) h = (refl, refl)
no_sign (suc (suc (suc (suc zero)))) h = (refl, refl)
no_sign (suc (suc (suc (suc (suc zero))))) h = (refl, refl)
no_sign (suc (suc (suc (suc (suc (suc zero)))))) h = (refl, refl)
no_sign (suc (suc (suc (suc (suc (suc (suc zero))))))) h = (refl, refl)
no_sign (suc (suc (suc (suc (suc (suc (suc (suc zero)))))))) h = (refl, refl)
no_sign (suc (suc (suc (suc (suc (suc (suc (suc (suc d))))))))) h = (refl, refl)

read_digits : (n : ℕ) → n < 10 ^ 20 → parse_digits 0 (digits 20 n "") ≡ some n
unfolding parse_digits
read_digits n h = parse-digits 19 n "" h

read_unsigned :
    (negative : Bool) (n : ℕ)
    → n < 10 ^ 20
    → parse_unsigned negative (digits 20 n "") ≡ to_int64 negative (some n)
unfolding parse_unsigned
read_unsigned negative n h =
    let (d, t, small, shown) = first_digit 19 n "" in
    rw shown (ap (to_int64 negative) (ap (parse_digits 0) (sym shown) ∙ read_digits n h))

read_positive : (n : ℕ) → n < 10 ^ 20 → parse_int64 (digits 20 n "") ≡ to_int64 false (some n)
unfolding parse_int64
read_positive n h =
    let (d, t, small, shown) = first_digit 19 n "" in
    let (minus, plus) = no_sign d small in
    let read : parse_unsigned false (String.◌∷◌ (digit_char d) t) ≡ to_int64 false (some n) =
      ap (parse_unsigned false) (sym shown) ∙ read_unsigned false n h in
    rw shown (rw (minus, plus) read)

-- `ParseInt` reads back what `FormatInt` wrote, for every int64: the number, or the bits of the
-- negative number.
pub parse-format_int :
    (n : ℕ)
    → n < 2 ^ 63
    → (parse_int64 (format_int (pos n)) ≡ some n)
      × (parse_int64 (format_int (negsuc n)) ≡ some (2 ^ 64 - suc n))
unfolding parse_int64 format_int
parse-format_int n h = (
  read_positive n (omega arith) ∙ ground arith,
  read_unsigned true (suc n) (omega arith) ∙ ground arith,
)
