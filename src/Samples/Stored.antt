-- ===== src/Samples/Stored.antt =====
-- The column `urls_json`, written and read back.
use mirror_mirage.Prelude.{All, ◌≡◌, refl, none, arith, List, [], ◌∷◌}
use mirror_mirage.Text.{Text, codes}
use mirror_mirage.Text
use mirror_mirage.Json
use mirror_mirage.Json.{dumps, loads}
use mirror_mirage.Json.Escapes.{IsText}
use mirror_mirage.Outcome.{value}
use mirror_mirage.Queue
use mirror_mirage.Queue.{empty}
use mirror_mirage.Queue.Work
use mirror_mirage.Queue.Column
use mirror_mirage.Queue.Column.Refines.{file_of, claim_ready-Refines}

-- Quotes and a line feed, a letter beyond ASCII, one beyond 16 bits, an undecodable byte.
abbrev odd : List Text
odd = (34 ∷ 10 ∷ 233 ∷ 128512 ∷ 56448 ∷ []) ∷ codes "a" ∷ []

odd_written : dumps odd ≡ codes "[\"\\\"\\n\\u00e9\\ud83d\\ude00\\udc80\", \"a\"]"
unfolding dumps Json.escape_all Json.escape Json.digit Text.join
odd_written = refl

-- A batch of them, with another statement after it.
abbrev statements : List Work.Op
statements = Work.enqueue 100 (codes "edge") odd ∷ Work.mark_done 7 ∷ []

odd_texts : All IsText odd
odd_texts = (
  (
    (omega arith, refl),
    ((omega arith, refl), ((omega arith, refl), ((omega arith, refl), ((omega arith, refl), tt)))),
  ),
  (((omega arith, refl), tt), tt),
)

claim_ready-Refines_example :
    Column.claim_ready (codes "edge") 120 (Column.run statements (file_of empty)) ≡ (
      value (Queue.claim_ready (codes "edge") 120 (Work.run statements empty)).0,
      file_of (Queue.claim_ready (codes "edge") 120 (Work.run statements empty)).1,
    )
claim_ready-Refines_example = claim_ready-Refines statements (codes "edge") 120 (odd_texts, tt)

-- What is cut off is refused.
cut_off : loads (codes "[\"a\", ") ≡ none
unfolding loads Json.read
cut_off = refl
