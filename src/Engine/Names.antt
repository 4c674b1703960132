-- ===== src/Engine/Names.antt =====
-- Texts that are taken apart: port hashes, port labels and the names of events, as lists of
-- characters, with `includes`, `lastIndexOf` and `substring` as the engine uses them
-- (`_extractPortName`, source/services/Ultravisor-ExecutionEngine.cjs).
use ultravisor.Base.{
  ℕ, ◌==◌, Bool, true, false, ◌&&◌, Option, none, some, List, [], ◌∷◌, if◌then◌else◌, is_some,
  or_else,
}

abbrev pub Name : Type 0
Name = List ℕ

unfoldable pub same_name : Name → Name → Bool
same_name [] [] = true
same_name [] (y ∷ ys) = false
same_name (x ∷ xs) [] = false
same_name (x ∷ xs) (y ∷ ys) = x == y && same_name xs ys

abbrev pub is_empty : Name → Bool
is_empty [] = true
is_empty (x ∷ xs) = false

-- What follows a prefix.
unfoldable pub strip : Name → Name → Option Name
strip [] text = some text
strip (p ∷ ps) [] = none
strip (p ∷ ps) (x ∷ xs) = let rest = strip ps xs in if p == x then rest else none

-- What follows the last place where the pattern stands.
unfoldable pub after_last : Name → Name → Option Name
unfolding strip
after_last pat [] = strip pat []
after_last pat (x ∷ xs) = elim (after_last pat xs) [
  | some rest ↦ some rest
  | none ↦ strip pat (x ∷ xs)
]

unfoldable pub includes : Name → Name → Bool
unfolding after_last
includes pat text = is_some (after_last pat text)

-- "-ei-", "-eo-", "-si-" and "-so-"
abbrev pub event_in : Name
event_in = 45 ∷ 101 ∷ 105 ∷ 45 ∷ []

abbrev pub event_out : Name
event_out = 45 ∷ 101 ∷ 111 ∷ 45 ∷ []

abbrev pub state_in : Name
state_in = 45 ∷ 115 ∷ 105 ∷ 45 ∷ []

abbrev pub state_out : Name
state_out = 45 ∷ 115 ∷ 111 ∷ 45 ∷ []

-- The map from port hashes to labels; a later entry of a hash replaces its earlier one.
abbrev pub Labels : Type 0
Labels = List (Name × Name)

unfoldable pub label_of_port : Name → Labels → Option Name
unfolding same_name
label_of_port h [] = none
label_of_port h ((k, label) ∷ rest) =
    let later = label_of_port h rest in if same_name k h then some label else later

unfoldable pub set_label : Name → Name → Labels → Labels
unfolding same_name
set_label h label [] = (h, label) ∷ []
set_label h label ((k, old) ∷ rest) =
    let later = (k, old) ∷ set_label h label rest in
    if same_name k h then (k, label) ∷ rest else later

-- A label that is there and not empty, else the hash itself.
abbrev pub label_or_hash : Name → Option Name → Name
label_or_hash h none = h
label_or_hash h (some []) = h
label_or_hash h (some (x ∷ xs)) = x ∷ xs

-- The four markers are tried in turn.
unfoldable pub first_marked : List Name → Name → Option Name
unfolding after_last
first_marked [] h = none
first_marked (m ∷ ms) h =
    let later = first_marked ms h in elim (after_last m h) [ some name ↦ some name | none ↦ later ]

abbrev pub markers : List Name
markers = event_in ∷ event_out ∷ state_in ∷ state_out ∷ []

unfoldable pub extract_port_name : Name → Labels → Name
unfolding first_marked label_of_port
extract_port_name h labels =
    if is_empty h
    then []
    else or_else (first_marked markers h) (label_or_hash h (label_of_port h labels))
