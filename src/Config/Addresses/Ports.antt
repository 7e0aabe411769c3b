-- ===== src/Config/Addresses/Ports.antt =====
-- The decimal texts of ports.
use shadowsocks_rust.Common.{
  ℕ, zero, suc, ◌+◌, ◌-◌, ◌*◌, ◌/◌, ◌%◌, ◌==◌, ◌<◌, ltb, ◌≡◌, ◌≢◌, refl, sym, ap, ◌∙◌, List, [],
  ◌∷◌, ◌++◌, append_assoc, append-nil, true, false, Bool-cases, inl, inr, ◌&&◌, none, some, arith,
  All, All-append, if◌then◌else◌,
}
use shadowsocks_rust.Config.Addresses.{
  is_digit, parse_digits, parse_unsigned, parse_u16, show_digits, show_u16,
}

-- One more digit.
parse_digits_step :
    (acc d r : ℕ) (bs : List ℕ)
    → d < 10
    → acc * 10 + d ≡ r
    → r < 65536
    → parse_digits acc ((48 + d) ∷ bs) ≡ parse_digits r bs
unfolding parse_digits
parse_digits_step acc d r bs hd e h =
    let same : 48 + d - 48 ≡ d = omega arith in
    rw (parse_digits, same, e) (ap (λ b. if b then parse_digits r bs else none) fits)
  where
    fits : (is_digit (48 + d) && ltb r 65536) ≡ true
    fits = ground arith

abbrev limit : ℕ → ℕ
limit zero = 1
limit (suc fuel) = 10 * limit fuel

-- The digits of a number, then more digits.
parse_digits-show_digits :
    (fuel n : ℕ) (bs : List ℕ)
    → n < limit fuel
    → n < 65536
    → parse_digits 0 (show_digits fuel n ++ bs) ≡ parse_digits n bs
unfolding show_digits
parse_digits-show_digits zero n bs h small = ap (λ m. parse_digits m bs) (omega arith)
parse_digits-show_digits (suc fuel) n bs h small = elim (Bool-cases (ltb n 10)) [
  | inl one ↦ rw (show_digits, one) (parse_digits_step 0 n n bs (ground arith) (omega arith) small)
  | inr more ↦
      rw (show_digits, more)
        (ap (parse_digits 0) (append_assoc (show_digits fuel (n / 10)) ((48 + n % 10) ∷ []) bs)
          ∙ parse_digits-show_digits fuel (n / 10) ((48 + n % 10) ∷ bs) (omega arith) (omega arith)
          ∙ parse_digits_step (n / 10) (n % 10) n bs (omega arith) (omega arith) small)
]

-- Every character of a port's text is a digit.
show_digits-IsDigit :
    (fuel n : ℕ) → n < limit fuel → All (λ b. is_digit b ≡ true) (show_digits fuel n)
unfolding show_digits
show_digits-IsDigit zero n h = tt
show_digits-IsDigit (suc fuel) n h = elim (Bool-cases (ltb n 10)) [
  | inl one ↦ rw (show_digits, one) (ground arith, tt)
  | inr more ↦
      let last : is_digit (48 + n % 10) ≡ true = ground arith in
      rw (show_digits, more)
        (All-append (λ b. is_digit b ≡ true) (show_digits fuel (n / 10)) ((48 + n % 10) ∷ [])
          (show_digits-IsDigit fuel (n / 10) (omega arith)) (last, tt))
]

-- A text of digits is read as a number without a sign.
read_digits :
    (bs : List ℕ) (r : ℕ)
    → All (λ b. is_digit b ≡ true) bs
    → bs ≢ []
    → parse_digits 0 bs ≡ some r
    → parse_u16 bs ≡ some r
unfolding parse_u16 parse_unsigned
read_digits [] r h ne e = absurd (ne refl)
read_digits (b ∷ bs) r (h, hs) ne e =
    let plain : (b == 43) ≡ false = ground arith in rw (parse_u16, plain) e

show_digits_some : (fuel n : ℕ) → show_digits (suc fuel) n ≢ []
unfolding show_digits
show_digits_some fuel n e = elim (Bool-cases (ltb n 10)) [
  | inl one ↦ (let e' = rw (show_digits, one) at e in cc)
  | inr more ↦ (let e' = rw (show_digits, more) at e in not_empty (show_digits fuel (n / 10)) _ e')
]
  where
    not_empty : (xs : List ℕ) (x : ℕ) → xs ++ (x ∷ []) ≡ [] → ⊥
    not_empty [] x h = cc
    not_empty (y ∷ ys) x h = cc

pub parse_u16-show_u16 : (n : ℕ) → n < 65536 → parse_u16 (show_u16 n) ≡ some n
unfolding show_u16 parse_digits
parse_u16-show_u16 n h =
    read_digits (show_digits 5 n) n (show_digits-IsDigit 5 n (omega arith)) (show_digits_some 4 n) (
      ap (parse_digits 0) (sym (append-nil (show_digits 5 n)))
      ∙ parse_digits-show_digits 5 n [] (omega arith) h)

pub show_u16-IsDigit : (n : ℕ) → n < 65536 → All (λ b. is_digit b ≡ true) (show_u16 n)
unfolding show_u16
show_u16-IsDigit n h = show_digits-IsDigit 5 n (omega arith)
