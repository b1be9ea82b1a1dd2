-- ===== src/Preflight/Tokens.antt =====
-- The output of `ip` that a line holds an address of is read back.
use hypertron_sw01_ros2_brid.Prelude.{
  ℕ, ◌≡◌, refl, sym, ap, ◌∙◌, false, not, List, [], ◌∷◌, ◌++◌, arith, length, ◌==◌, if_no, All,
}
use mathlib.Core.List.{append_assoc, append-nil}
use hypertron_sw01_ros2_brid.Prelude.Text.{Bytes, codes, bytes_eq, is_empty, is_space}
use hypertron_sw01_ros2_brid.Preflight.Texts.{push_front, close, lines, words_after, tokens}
use hypertron_sw01_ros2_brid.Preflight.{inet_entries, all_entries, parse_ip_addr_output}

-- A word has a character and no blank.
abbrev pub IsWord : Bytes → Type 0
IsWord w = (is_empty w ≡ false) × All (λ c. is_space c ≡ false) w

-- The words of a line with a blank between them.
unfoldable pub print_words : List Bytes → Bytes
print_words [] = []
print_words (w ∷ []) = w
print_words (w ∷ v ∷ ws) = w ++ (32 ∷ print_words (v ∷ ws))

-- The lines, each with a line break.
unfoldable pub print_lines : List (List Bytes) → Bytes
print_lines [] = []
print_lines (l ∷ ls) = print_words l ++ (10 ∷ print_lines ls)

words_after-word :
    (w done rest : Bytes)
    → All (λ c. is_space c ≡ false) w
    → words_after done (w ++ rest) ≡ words_after (done ++ w) rest
unfolding words_after
words_after-word [] done rest h = ap (λ d. words_after d rest) (sym (append-nil done))
words_after-word (c ∷ w) done rest (h, hs) =
    if_no (is_space c) _ _ _ h (words_after-word w (done ++ (c ∷ [])) rest hs)
    ∙ ap (λ d. words_after d rest) (append_assoc done (c ∷ []) w)

close-word : (w : Bytes) (rest : List Bytes) → is_empty w ≡ false → close w rest ≡ w ∷ rest
close-word w rest h = if_no _ _ _ _ h refl

last-word : (w : Bytes) → IsWord w → words_after [] w ≡ w ∷ []
unfolding words_after
last-word w (h, hs) =
    ap (words_after []) (sym (append-nil w)) ∙ words_after-word w [] [] hs ∙ close-word w [] h

tokens-print_words : (ws : List Bytes) → All IsWord ws → tokens (print_words ws) ≡ ws
unfolding tokens print_words words_after
tokens-print_words [] h = refl
tokens-print_words (w ∷ []) (h, _) = last-word w h
tokens-print_words (w ∷ v ∷ ws) (h, hs) =
    words_after-word w [] (32 ∷ print_words (v ∷ ws)) h.1
    ∙ close-word w (words_after [] (print_words (v ∷ ws))) h.0
    ∙ ap (◌∷◌ w) (tokens-print_words (v ∷ ws) hs)

not_break : (c : ℕ) → is_space c ≡ false → (c == 10) ≡ false
not_break c h = ground arith

lines-line :
    (l rest : Bytes) → All (λ c. (c == 10) ≡ false) l → lines (l ++ (10 ∷ rest)) ≡ l ∷ lines rest
unfolding lines
lines-line [] rest h = refl
lines-line (c ∷ l) rest (h, hs) = if_no (c == 10) _ _ _ h (ap (push_front c) (lines-line l rest hs))

word-unbroken : (w : Bytes) → All (λ c. is_space c ≡ false) w → All (λ c. (c == 10) ≡ false) w
word-unbroken [] h = tt
word-unbroken (c ∷ w) (h, hs) = (not_break c h, word-unbroken w hs)

All-append : (P : ℕ → Type 0) (xs ys : Bytes) → All P xs → All P ys → All P (xs ++ ys)
All-append P [] ys h h' = h'
All-append P (x ∷ xs) ys (h, hs) h' = (h, All-append P xs ys hs h')

print_words-unbroken :
    (ws : List Bytes) → All IsWord ws → All (λ c. (c == 10) ≡ false) (print_words ws)
unfolding print_words
print_words-unbroken [] h = tt
print_words-unbroken (w ∷ []) (h, _) = word-unbroken w h.1
print_words-unbroken (w ∷ v ∷ ws) (h, hs) =
    All-append (λ c. (c == 10) ≡ false) w _ (word-unbroken w h.1)
      (refl, print_words-unbroken (v ∷ ws) hs)

-- The words that follow `inet` in the lines.
abbrev entries_of : List (List Bytes) → List Bytes
entries_of [] = []
entries_of (l ∷ ls) = inet_entries l ++ entries_of ls

all_entries-print :
    (ls : List (List Bytes))
    → All (All IsWord) ls
    → all_entries (lines (print_lines ls)) ≡ entries_of ls
unfolding all_entries print_lines lines
all_entries-print [] h = refl
all_entries-print (l ∷ ls) (h, hs) =
    ap all_entries (lines-line (print_words l) (print_lines ls) (print_words-unbroken l h))
    ∙ (λ i. inet_entries (tokens-print_words l h i) ++ all_entries-print ls hs i)

-- One line of `ip -4 -o addr show`.
pub record AddrLine : Type 0 where
  pub before : List Bytes
  pub cidr : Bytes
  pub after : List Bytes

abbrev pub IsOther : Bytes → Type 0
IsOther w = bytes_eq w (codes "inet") ≡ false

abbrev pub words_of : AddrLine → List Bytes
words_of l = l.before ++ (codes "inet" ∷ l.cidr ∷ l.after)

-- The words of a line are words, and only the one before the address is `inet`.
abbrev pub IsAddrLine : AddrLine → Type 0
IsAddrLine l = All IsWord (words_of l) × All IsOther l.before × All IsOther l.after

inet_entries-after : (ws : List Bytes) → All IsOther ws → inet_entries ws ≡ []
unfolding inet_entries
inet_entries-after [] h = refl
inet_entries-after (w ∷ []) h = refl
inet_entries-after (w ∷ v ∷ ws) (h, hs) =
    if_no (bytes_eq w (codes "inet")) _ _ _ h (inet_entries-after (v ∷ ws) hs)

inet_entries-line :
    (before : List Bytes) (cidr : Bytes) (after : List Bytes)
    → All IsOther before
    → All IsOther after
    → inet_entries (before ++ (codes "inet" ∷ cidr ∷ after)) ≡ cidr ∷ []
unfolding inet_entries
inet_entries-line [] cidr after h h' = ap (◌∷◌ cidr) (inet_entries-after after h')
inet_entries-line (w ∷ []) cidr after (h, _) h' =
    if_no (bytes_eq w (codes "inet")) _ _ _ h (inet_entries-line [] cidr after tt h')
inet_entries-line (w ∷ v ∷ ws) cidr after (h, hs) h' =
    if_no (bytes_eq w (codes "inet")) _ _ _ h (inet_entries-line (v ∷ ws) cidr after hs h')

abbrev pub printed : List AddrLine → List (List Bytes)
printed [] = []
printed (l ∷ ls) = words_of l ∷ printed ls

abbrev pub cidrs : List AddrLine → List Bytes
cidrs [] = []
cidrs (l ∷ ls) = l.cidr ∷ cidrs ls

printed-words : (ls : List AddrLine) → All IsAddrLine ls → All (All IsWord) (printed ls)
printed-words [] h = tt
printed-words (l ∷ ls) (h, hs) = (h.0, printed-words ls hs)

entries_of-printed : (ls : List AddrLine) → All IsAddrLine ls → entries_of (printed ls) ≡ cidrs ls
entries_of-printed [] h = refl
entries_of-printed (l ∷ ls) (h, hs) =
    λ i. inet_entries-line l.before l.cidr l.after h.1 h.2 i ++ entries_of-printed ls hs i

-- Lines of words with blanks between them, each with the word `inet` once, before an address, are
-- read back: the parser gives the addresses in their order, and says whether there was one.
pub parse_ip_addr_output-print :
    (ls : List AddrLine)
    → All IsAddrLine ls
    → parse_ip_addr_output (print_lines (printed ls)) ≡ (not (length (cidrs ls) == 0), cidrs ls)
unfolding parse_ip_addr_output
parse_ip_addr_output-print ls h =
    ap (λ (addresses : List Bytes). (not (length addresses == 0), addresses))
      (all_entries-print (printed ls) (printed-words ls h) ∙ entries_of-printed ls h)
