-- ===== src/Json/Escapes.antt =====
-- The escape of a character, written and read back.
use Prim.Native.Nat.{◌/◌, ◌%◌}
use mirror_mirage.Prelude.{
  ℕ, ◌+◌, ◌-◌, ◌*◌, ◌≤◌, ◌<◌, ◌≡◌, refl, sym, ap, ◌∙◌, subst, Bool, true, false, ◌&&◌, ◌||◌, Option,
  some, List, [], ◌∷◌, ◌++◌, leb, ltb, ◌==◌, All, Bool-cases, ==_iff, arith, inl, inr,
}
use mirror_mirage.Text.{Text}
use mirror_mirage.Json.{
  digit, escape_16, high_of, low_of, escape, Unit16, plain, simple_escape, digit_value, push, read,
  is_high, is_low, join_units,
}

-- A code point that is no high surrogate.
abbrev pub IsCharacter : ℕ → Type 0
IsCharacter c = (c < 1114112) × (is_high c ≡ false)

abbrev pub IsText : Text → Type 0
IsText = All IsCharacter

digit_value-digit : (d : ℕ) → d < 16 → digit_value (digit d) ≡ some d
unfolding digit_value digit
digit_value-digit d h = ground arith

abbrev pub push_all : List Unit16 → Option (List (List Unit16)) → Option (List (List Unit16))
push_all [] o = o
push_all (u ∷ us) o = push u (push_all us o)

-- One escape of four digits.
read-digits :
    (n a b c d : ℕ) (rest : Text)
    → a < 16
    → b < 16
    → c < 16
    → d < 16
    → (((0 * 16 + a) * 16 + b) * 16 + c) * 16 + d ≡ n
    → read plain (92 ∷ 117 ∷ digit a ∷ digit b ∷ digit c ∷ digit d ∷ rest)
      ≡ push (true, n) (read plain rest)
unfolding read
read-digits n a b c d rest ha hb hc hd e =
    rw
      (
        read,
        digit_value-digit a ha,
        digit_value-digit b hb,
        digit_value-digit c hc,
        digit_value-digit d hd,
      )
      (ap (λ (m : ℕ). push (true, m) (read plain rest)) e)

read-escape_16 :
    (n : ℕ) (rest : Text)
    → n < 65536
    → read plain (escape_16 n ++ rest) ≡ push (true, n) (read plain rest)
read-escape_16 n rest h =
    read-digits n (n / 4096 % 16) (n / 256 % 16) (n / 16 % 16) (n % 16) rest (omega arith)
      (omega arith) (omega arith) (omega arith) (omega (arith, h))

-- What `loads` makes of the escape of a character: units that give the character again.
pub record IsRead (written : Text) (c : ℕ) : Type 0 where
  pub units : List Unit16
  pub reads : (rest : Text) → read plain (written ++ rest) ≡ push_all units (read plain rest)
  pub joins : (more : List Unit16) → join_units (units ++ more) ≡ c ∷ join_units more

join_units-single :
    (b : Bool) (c : ℕ) (more : List Unit16)
    → is_high c ≡ false
    → join_units ((b, c) ∷ more) ≡ c ∷ join_units more
unfolding join_units
join_units-single b c [] h = refl
join_units-single b c ((d, l) ∷ more) h = rw h (ground arith)

join_units-pair :
    (h l : ℕ) (more : List Unit16)
    → is_high h ≡ true
    → is_low l ≡ true
    → join_units ((true, h) ∷ (true, l) ∷ more)
      ≡ (65536 + ((h - 55296) * 1024 + (l - 56320))) ∷ join_units more
unfolding join_units
join_units-pair h l more a b = rw (a, b)

-- The character is a unit by itself.
single :
    (written : Text) (b : Bool) (c : ℕ)
    → is_high c ≡ false
    → ((rest : Text) → read plain (written ++ rest) ≡ push (b, c) (read plain rest))
    → IsRead written c
single written b c h r = record {
  units = (b, c) ∷ [];
  reads = r;
  joins = λ more. join_units-single b c more h;
}

escape_beyond :
    (c : ℕ) → c < 1114112 → 65536 ≤ c → IsRead (escape_16 (high_of c) ++ escape_16 (low_of c)) c
escape_beyond c h k = record {
  units = (true, high_of c) ∷ (true, low_of c) ∷ [];
  reads = λ rest.
      read-escape_16 (high_of c) (escape_16 (low_of c) ++ rest) (omega arith)
      ∙ ap (push (true, high_of c)) (read-escape_16 (low_of c) rest (omega arith));
  joins = λ more.
      join_units-pair (high_of c) (low_of c) more (ground arith) (ground arith)
      ∙ ap (λ (d : ℕ). d ∷ join_units more) (omega (arith, h, k));
}

printable :
    (c : ℕ)
    → (c == 34) ≡ false
    → (c == 92) ≡ false
    → leb 32 c && leb c 126 ≡ true
    → IsRead (c ∷ []) c
unfolding read
printable c q b p =
    let low : ltb c 32 ≡ false = ground arith in
    single (c ∷ []) false c (ground arith) (λ rest. rw (q, b, low, read))

fixed : (c d : ℕ) → (c == d) ≡ true → IsRead (escape d) d → IsRead (escape c) c
fixed c d e r = subst (λ n. IsRead (escape n) n) (sym ((==_iff c d).0 e)) r

-- The escapes of a backslash and a letter.
short_escape :
    (c : ℕ)
    → (c == 8) || ((c == 12) || ((c == 10) || ((c == 13) || (c == 9)))) ≡ true
    → IsRead (escape c) c
unfolding escape read simple_escape
short_escape c h = elim (Bool-cases (c == 8)) [
  | inl e ↦ fixed c 8 e (single _ false 8 refl (λ rest. refl))
  | inr e8 ↦ elim (Bool-cases (c == 12)) [
    | inl e ↦ fixed c 12 e (single _ false 12 refl (λ rest. refl))
    | inr e12 ↦ elim (Bool-cases (c == 10)) [
      | inl e ↦ fixed c 10 e (single _ false 10 refl (λ rest. refl))
      | inr e10 ↦ elim (Bool-cases (c == 13)) [
        | inl e ↦ fixed c 13 e (single _ false 13 refl (λ rest. refl))
        | inr e13 ↦ fixed c 9 (ground arith) (single _ false 9 refl (λ rest. refl))
      ]
    ]
  ]
]

-- All others.
long_escape :
    (c : ℕ)
    → IsCharacter c
    → (c == 34) ≡ false
    → (c == 92) ≡ false
    → leb 32 c && leb c 126 ≡ false
    → (c == 8) || ((c == 12) || ((c == 10) || ((c == 13) || (c == 9)))) ≡ false
    → IsRead (escape c) c
unfolding escape
long_escape c h q b p s =
    let e8 : (c == 8) ≡ false = ground arith in
    let e12 : (c == 12) ≡ false = ground arith in
    let e10 : (c == 10) ≡ false = ground arith in
    let e13 : (c == 13) ≡ false = ground arith in
    let e9 : (c == 9) ≡ false = ground arith in
    elim (Bool-cases (ltb c 65536)) [
      | inl l ↦
          rw (q, b, p, e8, e12, e10, e13, e9, l)
            (single (escape_16 c) true c h.1 (λ rest. read-escape_16 c rest (ground arith)))
      | inr l ↦ rw (q, b, p, e8, e12, e10, e13, e9, l) (escape_beyond c h.0 (ground arith))
    ]

pub escape-IsRead : (c : ℕ) → IsCharacter c → IsRead (escape c) c
unfolding escape read simple_escape
escape-IsRead c h = elim (Bool-cases (c == 34)) [
  | inl e ↦ fixed c 34 e (single _ false 34 refl (λ rest. refl))
  | inr q ↦ elim (Bool-cases (c == 92)) [
    | inl e ↦ fixed c 92 e (single _ false 92 refl (λ rest. refl))
    | inr b ↦ elim (Bool-cases (leb 32 c && leb c 126)) [
      | inl p ↦ rw (q, b, p) (printable c q b p)
      | inr p ↦
          elim (Bool-cases ((c == 8) || ((c == 12) || ((c == 10) || ((c == 13) || (c == 9)))))) [
            | inl s ↦ short_escape c s
            | inr s ↦ long_escape c h q b p s
          ]
    ]
  ]
]
