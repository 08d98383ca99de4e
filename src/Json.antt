-- ===== src/Json.antt =====
-- `json.dumps` and `json.loads` as src/mirror_mirage/queue.py calls them, on a list of strings, for the
-- column `urls_json`.
pub mod Escapes
pub mod RoundTrip
use Prim.Native.Nat.{◌/◌, ◌%◌}
use mirror_mirage.Prelude.{
  ℕ, zero, suc, ◌+◌, ◌-◌, ◌*◌, Bool, true, false, not, ◌&&◌, ◌||◌, Option, none, some, List, [],
  ◌∷◌, ◌++◌, map, leb, ltb, ◌==◌, if◌then◌else◌,
}
use mirror_mirage.Text.{Text, codes, join}

-- A digit of `{0:04x}`, and the escape with four of them.
unfoldable pub digit : ℕ → ℕ
digit d = if ltb d 10 then 48 + d else 87 + d

abbrev pub escape_16 : ℕ → Text
escape_16 n =
    codes "\\u"
    ++ (digit (n / 4096 % 16) ∷ digit (n / 256 % 16) ∷ digit (n / 16 % 16) ∷ digit (n % 16) ∷ [])

-- The surrogate pair of a code point beyond 16 bits.
abbrev pub high_of : ℕ → ℕ
high_of c = 55296 + (c - 65536) / 1024 % 1024

abbrev pub low_of : ℕ → ℕ
low_of c = 56320 + (c - 65536) % 1024

-- What `dumps` writes for a character; it escapes all but printable ASCII.
unfoldable pub escape : ℕ → Text
escape c =
    if c == 34
    then codes "\\\""
    else if c == 92
    then codes "\\\\"
    else if leb 32 c && leb c 126
    then c ∷ []
    else if c == 8
    then codes "\\b"
    else if c == 12
    then codes "\\f"
    else if c == 10
    then codes "\\n"
    else if c == 13
    then codes "\\r"
    else if c == 9
    then codes "\\t"
    else if ltb c 65536
    then escape_16 c
    else escape_16 (high_of c) ++ escape_16 (low_of c)

unfoldable pub escape_all : Text → Text
escape_all [] = []
escape_all (c ∷ s) = escape c ++ escape_all s

abbrev pub quoted : Text → Text
quoted s = 34 ∷ (escape_all s ++ 34 ∷ [])

-- `json.dumps(urls)`
unfoldable pub dumps : List Text → Text
dumps urls = 91 ∷ (join (codes ", ") (map quoted urls) ++ 93 ∷ [])

-- A code unit that `loads` reads in a string, with whether it stood as `\uXXXX`.
abbrev pub Unit16 : Type 0
Unit16 = Bool × ℕ

-- Where `loads` is in the text: before the array, after its bracket, in a string, after a backslash,
-- before the last digits of an escape, after a string, after a comma, after the array.
pub data Place : Type 0 where
  start opened plain backslash value_end comma closed : Place
  digits : ℕ → ℕ → Place

abbrev pub is_blank : ℕ → Bool
is_blank c = (c == 32) || ((c == 9) || ((c == 10) || (c == 13)))

-- `BACKSLASH[esc]`
unfoldable pub simple_escape : ℕ → Option ℕ
simple_escape c =
    if c == 34
    then some 34
    else if c == 92
    then some 92
    else if c == b'/'
    then some b'/'
    else if c == b'b'
    then some 8
    else if c == b'f'
    then some 12
    else if c == b'n'
    then some 10
    else if c == b'r'
    then some 13
    else if c == b't'
    then some 9
    else none

unfoldable pub digit_value : ℕ → Option ℕ
digit_value c =
    if leb 48 c && leb c 57
    then some (c - 48)
    else if leb 97 c && leb c 102
    then some (c - 87)
    else if leb 65 c && leb c 70
    then some (c - 55)
    else none

abbrev pub add_unit : Unit16 → List (List Unit16) → List (List Unit16)
add_unit u [] = []
add_unit u (now ∷ later) = (u ∷ now) ∷ later

abbrev pub push : Unit16 → Option (List (List Unit16)) → Option (List (List Unit16))
push u none = none
push u (some strings) = some (add_unit u strings)

abbrev pub begin : Option (List (List Unit16)) → Option (List (List Unit16))
begin none = none
begin (some strings) = some ([] ∷ strings)

-- The strings from here on, the one being read first; `none` for a JSONDecodeError, and for all that
-- is no array of strings.
unfoldable pub read : Place → Text → Option (List (List Unit16))
read closed [] = some []
read _ [] = none
read start (c ∷ s) = elim (is_blank c) [
  | true ↦ read start s
  | false ↦ elim (c == 91) [ true ↦ read opened s | false ↦ none ]
]
read opened (c ∷ s) = elim (is_blank c) [
  | true ↦ read opened s
  | false ↦ elim (c == 93) [
    | true ↦ read closed s
    | false ↦ elim (c == 34) [ true ↦ read plain s | false ↦ none ]
  ]
]
read plain (c ∷ s) = elim (c == 34) [
  | true ↦ begin (read value_end s)
  | false ↦ elim (c == 92) [
    | true ↦ read backslash s
    | false ↦ elim (ltb c 32) [ true ↦ none | false ↦ push (false, c) (read plain s) ]
  ]
]
read backslash (c ∷ s) = elim (c == b'u') [
  | true ↦ read (digits 3 0) s
  | false ↦ elim (simple_escape c) [ none ↦ none | some d ↦ push (false, d) (read plain s) ]
]
read (digits zero n) (c ∷ s) = elim (digit_value c) [
  | none ↦ none
  | some d ↦ push (true, n * 16 + d) (read plain s)
]
read (digits (suc k) n) (c ∷ s) = elim (digit_value c) [
  | none ↦ none
  | some d ↦ read (digits k (n * 16 + d)) s
]
read value_end (c ∷ s) = elim (is_blank c) [
  | true ↦ read value_end s
  | false ↦ elim (c == b',') [
    | true ↦ read comma s
    | false ↦ elim (c == 93) [ true ↦ read closed s | false ↦ none ]
  ]
]
read comma (c ∷ s) = elim (is_blank c) [
  | true ↦ read comma s
  | false ↦ elim (c == 34) [ true ↦ read plain s | false ↦ none ]
]
read closed (c ∷ s) = elim (is_blank c) [ true ↦ read closed s | false ↦ none ]

abbrev pub is_high : ℕ → Bool
is_high c = leb 55296 c && leb c 56319

abbrev pub is_low : ℕ → Bool
is_low c = leb 56320 c && leb c 57343

abbrev is_pair : Unit16 → Unit16 → Bool
is_pair (b, h) (c, l) = (b && c) && (is_high h && is_low l)

-- Two escapes in a row that are a surrogate pair are one character.
unfoldable pub join_units : List Unit16 → Text
join_units [] = []
join_units (u ∷ []) = u.1 ∷ []
join_units (u ∷ v ∷ units) =
    let after_both = join_units units in
    let after_one = join_units (v ∷ units) in
    if is_pair u v
    then (65536 + ((u.1 - 55296) * 1024 + (v.1 - 56320))) ∷ after_both
    else u.1 ∷ after_one

abbrev pub strings_of : Option (List (List Unit16)) → Option (List Text)
strings_of none = none
strings_of (some strings) = some (map join_units strings)

-- `json.loads(text)`
unfoldable pub loads : Text → Option (List Text)
loads text = strings_of (read start text)
