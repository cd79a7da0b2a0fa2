-- ===== src/User/Line.antt =====
-- `get_command` and `filter_newline` of c/user.c: the line that they take apart.
use mathlib.Core.List.{append-nil}
use xeros_kernel.Base.{
  ℕ, ◌<◌, ◌≤◌, ◌≡◌, refl, ◌≢◌, ◌∙◌, ap, true, false, ◌||◌, List, [], ◌∷◌, ◌++◌, arith, ◌==◌, has,
  ◌↔◌, ==_of_ne, ==_refl, subst, leb, length, if◌then◌else◌, some, none,
}
use xeros_kernel.User.{
  c_string, Parsed, same_text, filter_newline, is_separator, copy_word, after_word,
  after_separators, scan_back, turn, get_command,
}

-- No character is a space or `&`; all are.
abbrev pub IsWord : List ℕ → Type 0
IsWord [] = Unit {0}
IsWord (c ∷ cs) = (is_separator c ≡ false) × IsWord cs

abbrev pub IsGap : List ℕ → Type 0
IsGap [] = Unit {0}
IsGap (c ∷ cs) = (is_separator c ≡ true) × IsGap cs

copy_word-append :
    (w : List ℕ) (c : ℕ) (rest : List ℕ)
    → IsWord w
    → is_separator c ≡ true
    → (copy_word (w ++ (c ∷ rest)) ≡ w) × (after_word (w ++ (c ∷ rest)) ≡ c ∷ rest)
unfolding copy_word after_word
copy_word-append [] c rest word sep = rw sep (refl, refl)
copy_word-append (x ∷ w) c rest word sep =
    let (a, b) = copy_word-append w c rest word.1 sep in rw word.0 (ap (λ ys. x ∷ ys) a, b)

copy_word_all : (w : List ℕ) → IsWord w → (copy_word w ≡ w) × (after_word w ≡ [])
unfolding copy_word after_word
copy_word_all [] word = (refl, refl)
copy_word_all (x ∷ w) word =
    let (a, b) = copy_word_all w word.1 in rw word.0 (ap (λ ys. x ∷ ys) a, b)

after_separators-append :
    (g : List ℕ) (c : ℕ) (rest : List ℕ)
    → IsGap g
    → is_separator c ≡ false
    → after_separators (g ++ (c ∷ rest)) ≡ c ∷ rest
unfolding after_separators
after_separators-append [] c rest gap word = rw word refl
after_separators-append (x ∷ g) c rest gap word =
    rw gap.0 (after_separators-append g c rest gap.1 word)

turn-append : (xs ys zs : List ℕ) → turn (xs ++ ys) zs ≡ turn ys (turn xs zs)
turn-append [] ys zs = refl
turn-append (x ∷ xs) ys zs = turn-append xs ys (x ∷ zs)

-- What may follow the argument.
abbrev pub EndsWord : List ℕ → Type 0
EndsWord [] = Unit {0}
EndsWord (t ∷ ts) = is_separator t ≡ true

copy_word_ended : (w tail : List ℕ) → IsWord w → EndsWord tail → copy_word (w ++ tail) ≡ w
copy_word_ended w [] word ends = ap copy_word (append-nil w) ∙ (copy_word_all w word).0
copy_word_ended w (t ∷ ts) word ends = (copy_word-append w t ts word ends).0

c_string_all : (s : List ℕ) → has 0 s ≡ false → c_string s ≡ s
unfolding c_string
c_string_all [] out = refl
c_string_all (c ∷ s) out =
    let ih = c_string_all s (ground arith) in
    let some_c : (c == 0) ≡ false = ground arith in rw some_c (ap (λ ys. c ∷ ys) ih)

-- What `get_command` does with the two words of a string.
parsed :
    (room : ℕ) (str command arg : List ℕ)
    → has 0 str ≡ false
    → copy_word str ≡ command
    → copy_word (after_separators (after_word str)) ≡ arg
    → get_command room str ≡ (
        if leb room (length command) || leb room (length arg)
        then none
        else some (record { command = command; arg = arg; ampersand = scan_back (turn str []) }))
unfolding get_command
parsed room str command arg out first second = rw (c_string_all str out, first, second) refl

-- If a line without NUL is a word without spaces and `&`, one or more of these, and another such
-- word that is not empty, and then nothing or a space or `&` and anything, then `get_command` with
-- two buffers of `room` bytes takes the first word for the command and the second for its argument
-- if both are shorter than `room`, and writes behind a buffer if one is not.
pub get_command_lem :
    (room : ℕ) (w : List ℕ) (s : ℕ) (g : List ℕ) (c : ℕ) (v tail : List ℕ)
    → IsWord w
    → is_separator s ≡ true
    → IsGap g
    → IsWord (c ∷ v)
    → EndsWord tail
    → has 0 (w ++ (s ∷ (g ++ (c ∷ (v ++ tail))))) ≡ false
    → let r = get_command room (w ++ (s ∷ (g ++ (c ∷ (v ++ tail))))) in
      (length w < room
        → length (c ∷ v) < room
        → (p : Parsed) × (r ≡ some p) × (p.command ≡ w) × (p.arg ≡ c ∷ v))
      × (room ≤ length w → r ≡ none)
      × (room ≤ length (c ∷ v) → r ≡ none)
get_command_lem room w s g c v tail word sep gap arg_word ends out =
    let (a, b) = copy_word-append w s (g ++ (c ∷ (v ++ tail))) word sep in
    let left = after_separators-append (s ∷ g) c (v ++ tail) (sep, gap) arg_word.0 in
    let str = w ++ (s ∷ (g ++ (c ∷ (v ++ tail)))) in
    let second : copy_word (after_separators (after_word str)) ≡ c ∷ v =
      rw (b, left) (copy_word_ended (c ∷ v) tail arg_word ends) in
    let r = parsed room str w (c ∷ v) out a second in
    (
      λ h1 h2.
          let x : leb room (length w) ≡ false = ground arith in
          let y : leb room (length (c ∷ v)) ≡ false = ground arith in
          (
            record { command = w; arg = c ∷ v; ampersand = scan_back (turn str []) },
            r ∙ rw (x, y) refl,
            refl,
            refl,
          ),
      λ h. let x : leb room (length w) ≡ true = ground arith in r ∙ rw x refl,
      λ h.
          let y : (leb room (length w) || leb room (length (c ∷ v))) ≡ true = ground arith in
          r ∙ rw y refl,
    )

turn_cons :
    (xs : List ℕ) (y : ℕ) (ys : List ℕ) → (z : ℕ) × (zs : List ℕ) × (turn xs (y ∷ ys) ≡ z ∷ zs)
turn_cons [] y ys = (y, ys, refl)
turn_cons (x ∷ xs) y ys = turn_cons xs x (y ∷ ys)

abbrev pub IsSpaces : List ℕ → Type 0
IsSpaces [] = Unit {0}
IsSpaces (c ∷ cs) = (c ≡ 32) × IsSpaces cs

scan_back-spaces :
    (g : List ℕ) (y : ℕ) (ys : List ℕ)
    → IsSpaces g
    → scan_back (turn g (y ∷ ys)) ≡ scan_back (y ∷ ys)
unfolding scan_back
scan_back-spaces [] y ys sp = refl
scan_back-spaces (x ∷ g) y ys sp = scan_back-spaces g x (y ∷ ys) sp.1 ∙ rw sp.0 refl

-- The end of a line with a character that is no space and is not the first, and nothing but spaces
-- behind it: `get_command` returns whether this character is `&`.
pub scan_back-ampersand :
    (b c : ℕ) (body g : List ℕ)
    → c ≢ 32
    → IsSpaces g
    → scan_back (turn ((b ∷ body) ++ (c ∷ g)) []) ≡ (c == 38)
unfolding scan_back
scan_back-ampersand b c body g no_space sp =
    let (z, zs, e) = turn_cons body b [] in
    ap scan_back (turn-append body (c ∷ g) (b ∷ []))
    ∙ scan_back-spaces g c (turn body (b ∷ [])) sp
    ∙ rw e (last z zs)
  where
    last : (z : ℕ) (zs : List ℕ) → scan_back (c ∷ z ∷ zs) ≡ (c == 38)
    last z zs = rw (==_of_ne c 32 no_space) refl

-- The line without its newline.
pub filter_newline_lem :
    (s rest : List ℕ)
    → has 10 s ≡ false
    → (filter_newline (s ++ (10 ∷ rest)) ≡ s) × (filter_newline s ≡ s)
unfolding filter_newline
filter_newline_lem [] rest out = (refl, refl)
filter_newline_lem (c ∷ s) rest out =
    let (a, b) = filter_newline_lem s rest (ground arith) in
    let other : (c == 10) ≡ false = ground arith in
    rw other (ap (λ ys. c ∷ ys) a, ap (λ ys. c ∷ ys) b)

eq_of_same_text : (a b : List ℕ) → same_text a b ≡ true → a ≡ b
unfolding same_text
eq_of_same_text [] [] h = refl
eq_of_same_text [] (b ∷ bs) h = absurd (cc)
eq_of_same_text (a ∷ xs) [] h = absurd (cc)
eq_of_same_text (a ∷ xs) (b ∷ bs) h =
    let head : a ≡ b = ground arith in
    let tail : xs ≡ bs = eq_of_same_text xs bs (ground arith) in cc

same_text_refl : (a : List ℕ) → same_text a a ≡ true
unfolding same_text
same_text_refl [] = refl
same_text_refl (a ∷ xs) = rw (==_refl a, same_text_refl xs) refl

pub same_text_iff : (a b : List ℕ) → (same_text a b ≡ true) ↔ (a ≡ b)
same_text_iff a b =
    (eq_of_same_text a b, λ e. subst (λ c. same_text a c ≡ true) e (same_text_refl a))
