-- ===== src/Printer/Words.antt =====
-- Texts of one line as words with a space between them, and the line that ends with a newline.
use evm_firehose_tracer_go.Prelude.{
  ℕ, ◌<◌, ◌≡◌, refl, ap, ◌∙◌, false, List, [], ◌∷◌, ◌++◌, Option, none, some, ◌==◌, if◌then◌else◌,
  is_empty, All, arith, All-append,
}
use evm_firehose_tracer_go.Prelude.Bytes.{Bytes}

-- No space in it, and no control character such as a newline.
abbrev pub IsWord : Bytes → Type 0
IsWord = All (λ c. b' ' < c)

abbrev in_front : ℕ → List Bytes → List Bytes
in_front c [] = (c ∷ []) ∷ []
in_front c (w ∷ ws) = (c ∷ w) ∷ ws

-- The words between the spaces; a word may be empty.
unfoldable pub split : Bytes → List Bytes
split [] = [] ∷ []
split (c ∷ s) = let ws = split s in if c == b' ' then [] ∷ ws else in_front c ws

-- The words with a space between any two.
unfoldable pub join : List Bytes → Bytes
join [] = []
join (w ∷ []) = w
join (w ∷ v ∷ ws) = w ++ b' ' ∷ join (v ∷ ws)

split-word : (w : Bytes) → IsWord w → split w ≡ w ∷ []
unfolding split
split-word [] h = refl
split-word (c ∷ w) (printed, h) =
    let other : (c == b' ') ≡ false = ground arith in rw (other, split-word w h) refl

split-append : (w s : Bytes) → IsWord w → split (w ++ b' ' ∷ s) ≡ w ∷ split s
unfolding split
split-append [] s h = refl
split-append (c ∷ w) s (printed, h) =
    let other : (c == b' ') ≡ false = ground arith in rw (other, split-append w s h) refl

-- Splitting gives back the words that were joined, if there are any.
pub split-join :
    (w : Bytes) (ws : List Bytes) → All IsWord (w ∷ ws) → split (join (w ∷ ws)) ≡ w ∷ ws
unfolding join
split-join w [] (h, rest) = split-word w h
split-join w (v ∷ ws) (h, rest) =
    split-append w (join (v ∷ ws)) h ∙ ap (λ x. w ∷ x) (split-join v ws rest)

-- No character of it ends the line.
abbrev pub IsLine : Bytes → Type 0
IsLine = All (λ c. 10 < c)

-- The text before the newline, if this is the only one and at the end.
unfoldable pub chop : Bytes → Option Bytes
chop [] = none
chop (c ∷ s) =
    let rest = chop s in
    if c == 10
    then if is_empty s then some [] else none
    else elim rest [ none ↦ none | some text ↦ some (c ∷ text) ]

pub chop-append : (s : Bytes) → IsLine s → chop (s ++ 10 ∷ []) ≡ some s
unfolding chop
chop-append [] h = refl
chop-append (c ∷ s) (printed, h) =
    let other : (c == 10) ≡ false = ground arith in rw (other, chop-append s h) refl

word-IsLine : (w : Bytes) → IsWord w → IsLine w
word-IsLine [] h = tt
word-IsLine (c ∷ w) (printed, h) = (omega arith, word-IsLine w h)

pub join-IsLine : (ws : List Bytes) → All IsWord ws → IsLine (join ws)
unfolding join
join-IsLine [] h = tt
join-IsLine (w ∷ []) (h, rest) = word-IsLine w h
join-IsLine (w ∷ v ∷ ws) (h, rest) =
    All-append (λ c. 10 < c) w (b' ' ∷ join (v ∷ ws)) (word-IsLine w h)
      (omega arith, join-IsLine (v ∷ ws) rest)
