-- ===== src/Preflight/Texts.antt =====
-- The splitting of texts that src/network_preflight.cpp does with the standard library: at the first
-- slash, into lines by `std::getline`, and into words by `>>`.
use hypertron_sw01_ros2_brid.Prelude.{
  ℕ, List, [], ◌∷◌, ◌++◌, Option, none, some, ◌==◌, if◌then◌else◌,
}
use hypertron_sw01_ros2_brid.Prelude.Text.{Bytes, is_empty, is_space}

-- What stands before the first slash, and what behind it if there is one.
unfoldable pub split_slash : Bytes → Bytes × Option Bytes
split_slash [] = ([], none)
split_slash (c ∷ rest) =
    let (before, behind) = split_slash rest in
    if c == 47 then ([], some rest) else (c ∷ before, behind)

abbrev pub push_front : ℕ → List Bytes → List Bytes
push_front c [] = (c ∷ []) ∷ []
push_front c (line ∷ rest) = (c ∷ line) ∷ rest

-- The lines; an empty text has none, and a line break at the end begins none.
unfoldable pub lines : Bytes → List Bytes
lines [] = []
lines (c ∷ rest) = let on = lines rest in if c == 10 then [] ∷ on else push_front c on

abbrev pub close : Bytes → List Bytes → List Bytes
close word rest = if is_empty word then rest else word ∷ rest

-- The words from here on, where `word` is the part of one that stands before.
unfoldable pub words_after : Bytes → Bytes → List Bytes
words_after word [] = close word []
words_after word (c ∷ rest) =
    let next = words_after [] rest in
    let on = words_after (word ++ (c ∷ [])) rest in if is_space c then close word next else on

unfoldable pub tokens : Bytes → List Bytes
tokens line = words_after [] line
