-- ===== src/Json/RoundTrip.antt =====
-- What is written to `urls_json` is read back.
use mirror_mirage.Prelude.{◌≡◌, refl, sym, ap, ◌∙◌, Option, some, List, [], ◌∷◌, ◌++◌, map, All}
use mathlib.Core.List.{append_assoc, append-nil}
use mirror_mirage.Text.{Text, codes, join}
use mirror_mirage.Json.{
  escape, escape_all, quoted, dumps, Unit16, opened, plain, value_end, comma, push, begin, read,
  join_units, strings_of, loads,
}
use mirror_mirage.Json.Escapes.{IsText, push_all, escape-IsRead}

push_all-append :
    (us vs : List Unit16) (o : Option (List (List Unit16)))
    → push_all (us ++ vs) o ≡ push_all us (push_all vs o)
push_all-append [] vs o = refl
push_all-append (u ∷ us) vs o = ap (push u) (push_all-append us vs o)

push_all-some :
    (us now : List Unit16) (later : List (List Unit16))
    → push_all us (some (now ∷ later)) ≡ some ((us ++ now) ∷ later)
push_all-some [] now later = refl
push_all-some (u ∷ us) now later = ap (push u) (push_all-some us now later)

record AllRead (s : Text) : Type 0 where
  units : List Unit16
  reads : (rest : Text) → read plain (escape_all s ++ rest) ≡ push_all units (read plain rest)
  joins : join_units units ≡ s

escape_all-AllRead : (s : Text) → IsText s → AllRead s
unfolding escape_all join_units
escape_all-AllRead [] h = record { units = []; reads = λ rest. refl; joins = refl }
escape_all-AllRead (c ∷ s) (h, k) =
    let r = escape-IsRead c h in
    let t = escape_all-AllRead s k in
    record {
      units = r.units ++ t.units;
      reads = λ rest.
          ap (read plain) (append_assoc (escape c) (escape_all s) rest)
          ∙ r.reads (escape_all s ++ rest)
          ∙ ap (push_all r.units) (t.reads rest)
          ∙ sym (push_all-append r.units t.units (read plain rest));
      joins = r.joins t.units ∙ ap (λ (l : Text). c ∷ l) t.joins;
    }

-- The text of the array after its bracket, and after its first string.
abbrev written : List Text → Text
written urls = join (codes ", ") (map quoted urls) ++ 93 ∷ []

abbrev after_first : List Text → Text
after_first [] = 93 ∷ []
after_first (v ∷ vs) = codes ", " ++ written (v ∷ vs)

written-cons :
    (u : Text) (us : List Text) → written (u ∷ us) ≡ 34 ∷ (escape_all u ++ 34 ∷ after_first us)
unfolding join
written-cons u [] = ap (λ (s : Text). 34 ∷ s) (append_assoc (escape_all u) (34 ∷ []) (93 ∷ []))
written-cons u (v ∷ vs) =
    append_assoc (quoted u) (codes ", " ++ join (codes ", ") (map quoted (v ∷ vs))) (93 ∷ [])
    ∙ ap (λ (s : Text). 34 ∷ s) (append_assoc (escape_all u) (34 ∷ []) (after_first (v ∷ vs)))

-- What the strings of an array are read as.
abbrev Reads : Option (List (List Unit16)) → List Text → Type 0
Reads o urls = (strings : List (List Unit16)) × (o ≡ some strings) × (map join_units strings ≡ urls)

first-Reads :
    (u : Text) (us : List Text)
    → IsText u
    → Reads (read value_end (after_first us)) us
    → Reads (read plain (escape_all u ++ 34 ∷ after_first us)) (u ∷ us)
unfolding read
first-Reads u us h (strings, e, j) =
    let r = escape_all-AllRead u h in
    (
      r.units ∷ strings,
      r.reads (34 ∷ after_first us)
          ∙ ap (λ o. push_all r.units (begin o)) e
          ∙ push_all-some r.units [] strings
          ∙ ap (λ (l : List Unit16). some (l ∷ strings)) (append-nil r.units),
      ap (λ (l : List Text). join_units r.units ∷ l) j ∙ ap (λ (t : Text). t ∷ us) r.joins,
    )

rest-Reads : (us : List Text) → All IsText us → Reads (read value_end (after_first us)) us
unfolding read
rest-Reads [] k = ([], refl, refl)
rest-Reads (v ∷ vs) (h, k) =
    let (strings, e, j) = first-Reads v vs h (rest-Reads vs k) in
    (strings, ap (λ (s : Text). read comma (32 ∷ s)) (written-cons v vs) ∙ e, j)

-- A list of strings without high surrogates, whatever else they hold (quotes, control characters,
-- characters beyond 16 bits, the lone low surrogates that stand for undecodable bytes of a file name),
-- is what json.loads gives back of what json.dumps wrote.
pub loads-dumps : (urls : List Text) → All IsText urls → loads (dumps urls) ≡ some urls
unfolding loads dumps read join
loads-dumps [] h = refl
loads-dumps (u ∷ us) (h, k) =
    let (strings, e, j) = first-Reads u us h (rest-Reads us k) in
    ap (λ (s : Text). strings_of (read opened s)) (written-cons u us) ∙ ap strings_of e ∙ ap some j
