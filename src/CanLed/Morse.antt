-- ===== src/CanLed/Morse.antt =====
-- src/main/cpp/utils/MorseCodeTranslator.cpp and src/main/include/utils/MorseCodeTranslator.hpp: a text
-- in Morse code. A character is its ASCII code; the queue is a list.
use Prim.Native.String.{String}
use text.Mathlib.Text.{◌==◌ as str_eq}
use ckriopassthru.Base.{
  ℕ, ◌≡◌, refl, ap, sym, ◌∙◌, Bool, true, false, Option, none, some, List, [], ◌∷◌, ◌++◌, ◌==◌,
  ◌&&◌, arith, if◌then◌else◌, inl, inr, Option-cases, Bool-cases,
}
use mathlib.Core.List.{append-nil, append_assoc}
use ckriopassthru.Base.Map.{Map, lookup}

-- The map, in the order of its keys.
abbrev pub morse_character_chart : Map String
morse_character_chart =
    (32, "|")
    ∷ (33, "-.-.--")
    ∷ (34, ".-..-.")
    ∷ (36, "...-..-")
    ∷ (38, ".-...")
    ∷ (39, ".----.")
    ∷ (40, "-.--.")
    ∷ (41, "-.--.-")
    ∷ (43, ".-.-.")
    ∷ (44, "--..--")
    ∷ (45, "-....-")
    ∷ (46, ".-.-.-")
    ∷ (47, "-..-.")
    ∷ (48, "-----")
    ∷ (49, ".----")
    ∷ (50, "..---")
    ∷ (51, "...--")
    ∷ (52, "....-")
    ∷ (53, ".....")
    ∷ (54, "-....")
    ∷ (55, "--...")
    ∷ (56, "---..")
    ∷ (57, "----.")
    ∷ (58, "---...")
    ∷ (59, "-.-.-.")
    ∷ (61, "-...-")
    ∷ (63, "..--..")
    ∷ (64, ".--.-.")
    ∷ (65, ".-")
    ∷ (66, "-...")
    ∷ (67, "-.-.")
    ∷ (68, "-..")
    ∷ (69, ".")
    ∷ (70, "..-.")
    ∷ (71, "--.")
    ∷ (72, "....")
    ∷ (73, "..")
    ∷ (74, ".---")
    ∷ (75, "-.-")
    ∷ (76, ".-..")
    ∷ (77, "--")
    ∷ (78, "-.")
    ∷ (79, "---")
    ∷ (80, ".--.")
    ∷ (81, "--.-")
    ∷ (82, ".-.")
    ∷ (83, "...")
    ∷ (84, "-")
    ∷ (85, "..-")
    ∷ (86, "...-")
    ∷ (87, ".--")
    ∷ (88, "-..-")
    ∷ (89, "-.--")
    ∷ (90, "--..")
    ∷ (95, "..--.-")
    ∷ []

unfoldable code_of : ℕ → Option String
code_of c = lookup c morse_character_chart

-- `getTranslatedMsg`: the characters that are not in the chart are left out.
unfoldable pub get_translated_msg : List ℕ → List String → List String
unfolding code_of
get_translated_msg [] queue = queue
get_translated_msg (c ∷ cs) queue = elim (code_of c) [
  | none ↦ get_translated_msg cs queue
  | some code ↦ get_translated_msg cs (queue ++ (code ∷ []))
]

-- A reader: the character of a code.
abbrev find : String → Map String → Option ℕ
find code [] = none
find code ((c, v) ∷ m) = if str_eq v code then some c else find code m

unfoldable character_of : String → Option ℕ
character_of code = find code morse_character_chart

unfoldable pub read : List String → List ℕ
unfolding character_of
read [] = []
read (code ∷ codes) = elim (character_of code) [ none ↦ read codes | some c ↦ c ∷ read codes ]

-- The characters that the chart has.
unfoldable pub known : List ℕ → List ℕ
unfolding code_of
known [] = []
known (c ∷ cs) = elim (code_of c) [ none ↦ known cs | some code ↦ c ∷ known cs ]

-- A code is the code of one character: every entry of a chart is found again.
abbrev is_some_of : ℕ → Option ℕ → Bool
is_some_of c none = false
is_some_of c (some d) = c == d

unfoldable all_found : Map String → Bool
unfolding character_of
all_found [] = true
all_found ((c, code) ∷ m) = is_some_of c (character_of code) && all_found m

is_some_of_eq : (c : ℕ) (o : Option ℕ) → is_some_of c o ≡ true → o ≡ some c
is_some_of_eq c none h = ground arith
is_some_of_eq c (some d) h = ground arith

and-eq-true : (a b : Bool) → (a && b) ≡ true → (a ≡ true) × (b ≡ true)
and-eq-true true b h = (refl, h)
and-eq-true false b h = ground arith

some_injective : {A : Type 0} {x y : A} → some x ≡ some y → x ≡ y
some_injective {A} {x} h = ap (λ o. elim o [ none ↦ x | some z ↦ z ]) h

character_of-lookup :
    (c : ℕ) (code : String) (m : Map String)
    → all_found m ≡ true
    → lookup c m ≡ some code
    → character_of code ≡ some c
unfolding lookup all_found
character_of-lookup c code [] h e = ground arith
character_of-lookup c code ((d, v) ∷ m) h e =
    let (here, rest) = and-eq-true (is_some_of d (character_of v)) (all_found m) h in
    elim (Bool-cases (c == d)) [
      | inl t ↦
          let same : some v ≡ some code = ground (arith, e, t) in
          let equal : d ≡ c = ground (arith, t) in
          ap character_of (sym (some_injective same)) ∙ (is_some_of_eq d _ here ∙ ap some equal)
      | inr f ↦ character_of-lookup c code m rest (ground (arith, e, f))
    ]

morse_character_chart-found : all_found morse_character_chart ≡ true
unfolding all_found character_of
morse_character_chart-found = refl

character_of-code_of : (c : ℕ) (code : String) → code_of c ≡ some code → character_of code ≡ some c
unfolding code_of
character_of-code_of c code e =
    character_of-lookup c code morse_character_chart morse_character_chart-found e

read-append : (xs ys : List String) → read (xs ++ ys) ≡ read xs ++ read ys
unfolding read
read-append [] ys = refl
read-append (x ∷ xs) ys = elim (Option-cases (character_of x)) [
  | inl e ↦ rw (e, read) (read-append xs ys)
  | inr (c, e) ↦ rw (e, read) (ap (λ zs. c ∷ zs) (read-append xs ys))
]

-- The Morse codes of a text can be read back, since no two characters have the same code: after the
-- codes that were in the queue, a reader finds the characters of the text that the chart has.
pub read-get_translated_msg :
    (msg : List ℕ) (queue : List String)
    → read (get_translated_msg msg queue) ≡ read queue ++ known msg
unfolding get_translated_msg known read
read-get_translated_msg [] queue = sym (append-nil (read queue))
read-get_translated_msg (c ∷ cs) queue = elim (Option-cases (code_of c)) [
  | inl e ↦ rw (e, get_translated_msg, known) (read-get_translated_msg cs queue)
  | inr (code, e) ↦
      rw (e, get_translated_msg, known)
        (read-get_translated_msg cs (queue ++ (code ∷ []))
          ∙ (ap (λ zs. zs ++ known cs) (read-append queue (code ∷ []))
              ∙ rw (read, character_of-code_of c code e)
                  (append_assoc (read queue) (c ∷ []) (known cs))))
]
