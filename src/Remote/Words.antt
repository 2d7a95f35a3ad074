-- ===== src/Remote/Words.antt =====
-- How a POSIX shell reads a simple command of quoted and plain words, applied to what Remote.Shell
-- quotes.
mod Examples
use knitting_crab.Prelude.{
  ℕ, ◌==◌, ==_iff, ◌≡◌, refl, sym, ap, ◌∙◌, subst, Bool, true, false, ◌||◌, ◌&&◌, leb, Bool-cases,
  inl, inr, Option, none, some, List, [], ◌∷◌, ◌++◌, map, codes, if◌then◌else◌, arith,
}
use knitting_crab.Remote.Shell.{
  backslash, quote, dollar, backtick, space, replace, shell_escape_sh_double, quoted_arg, join,
  shell_join, inner_script, build_wrapped_command,
}

-- Between double quotes: a character that ends the text, escapes the next one, starts an expansion,
-- or stands for itself.
pub data InQuotes : Type 0 where
  ends escapes expands itself : InQuotes

unfoldable pub in_quotes : ℕ → InQuotes
in_quotes c =
    if c == quote
    then ends
    else if c == backslash
    then escapes
    else if c == dollar || c == backtick
    then expands
    else itself

-- Outside quotes: a separator, the start of a quoted text, a character of a plain word, or anything
-- else, which this reader does not take.
pub data Outside : Type 0 where
  separates starts plain other : Outside

unfoldable pub outside : ℕ → Outside
outside c =
    if c == space
    then separates
    else if c == quote
    then starts
    else if (leb 97 c && leb c 122) || c == 45
    then plain
    else other

pub data Mode : Type 0 where
  between in_word in_text after_escape : Mode

abbrev pub push : ℕ → Option (List (List ℕ)) → Option (List (List ℕ))
push c none = none
push c (some []) = none
push c (some (word ∷ words)) = some ((c ∷ word) ∷ words)

abbrev pub new_word : Option (List (List ℕ)) → Option (List (List ℕ))
new_word none = none
new_word (some words) = some ([] ∷ words)

-- A backslash keeps its meaning only before the four special characters; before a newline both go.
unfoldable pub is_escapable : ℕ → Bool
is_escapable c = c == quote || c == backslash || c == dollar || c == backtick

-- The words of a command; inside a word, the first of them is what is left of it. Without a result on
-- an expansion, an operator or an open quote.
unfoldable pub read : Mode → List ℕ → Option (List (List ℕ))
unfolding in_quotes outside is_escapable
read between [] = some []
read between (c ∷ cs) = elim (outside c) [
  | separates ↦ read between cs
  | starts ↦ read in_text cs
  | plain ↦ push c (read in_word cs)
  | other ↦ none
]
read in_word [] = some ([] ∷ [])
read in_word (c ∷ cs) = elim (outside c) [
  | separates ↦ new_word (read between cs)
  | starts ↦ read in_text cs
  | plain ↦ push c (read in_word cs)
  | other ↦ none
]
read in_text [] = none
read in_text (c ∷ cs) = elim (in_quotes c) [
  | ends ↦ read in_word cs
  | escapes ↦ read after_escape cs
  | expands ↦ none
  | itself ↦ push c (read in_text cs)
]
read after_escape [] = none
read after_escape (c ∷ cs) =
    let rest = read in_text cs in
    if is_escapable c then push c rest else if c == 10 then rest else push backslash (push c rest)

abbrev pub push_all : List ℕ → Option (List (List ℕ)) → Option (List (List ℕ))
push_all [] r = r
push_all (c ∷ cs) r = push c (push_all cs r)

-- The four replacements, one after the other, escape each special character once.
escape-cons :
    (x : ℕ) (xs : List ℕ)
    → shell_escape_sh_double (x ∷ xs) ≡ (
        if is_escapable x
        then backslash ∷ x ∷ shell_escape_sh_double xs
        else x ∷ shell_escape_sh_double xs)
unfolding shell_escape_sh_double replace is_escapable
escape-cons x xs = elim (Bool-cases (x == backslash)) [
  | inl b ↦ rw ((==_iff x backslash).0 b) refl
  | inr nb ↦ elim (Bool-cases (x == quote)) [
    | inl q ↦ rw ((==_iff x quote).0 q) refl
    | inr nq ↦ elim (Bool-cases (x == dollar)) [
      | inl d ↦ rw ((==_iff x dollar).0 d) refl
      | inr nd ↦ elim (Bool-cases (x == backtick)) [
        | inl t ↦ rw ((==_iff x backtick).0 t) refl
        | inr nt ↦ rw (nb, nq, nd, nt) refl
      ]
    ]
  ]
]

in_quotes-itself : (x : ℕ) → is_escapable x ≡ false → in_quotes x ≡ itself
unfolding in_quotes is_escapable
in_quotes-itself x h = ground arith

read-itself :
    (x : ℕ) (cs : List ℕ) → in_quotes x ≡ itself → read in_text (x ∷ cs) ≡ push x (read in_text cs)
unfolding read
read-itself x cs h = rw (h, read) refl

read-escaped :
    (x : ℕ) (cs : List ℕ)
    → is_escapable x ≡ true
    → read in_text (backslash ∷ x ∷ cs) ≡ push x (read in_text cs)
unfolding read in_quotes
read-escaped x cs h = rw (h) refl

-- A quoted text is read as what it quotes.
read-escape :
    (s rest : List ℕ)
    → read in_text (shell_escape_sh_double s ++ quote ∷ rest) ≡ push_all s (read in_word rest)
unfolding shell_escape_sh_double replace read in_quotes
read-escape [] rest = refl
read-escape (x ∷ xs) rest = elim (Bool-cases (is_escapable x)) [
  | inl special ↦
      ap (λ l. read in_text (l ++ quote ∷ rest))
        (escape-cons x xs
          ∙ ap
              (λ b.
                if b
                then backslash ∷ x ∷ shell_escape_sh_double xs
                else x ∷ shell_escape_sh_double xs)
              special)
      ∙ read-escaped x (shell_escape_sh_double xs ++ quote ∷ rest) special
      ∙ ap (push x) (read-escape xs rest)
  | inr literal ↦
      ap (λ l. read in_text (l ++ quote ∷ rest))
        (escape-cons x xs
          ∙ ap
              (λ b.
                if b
                then backslash ∷ x ∷ shell_escape_sh_double xs
                else x ∷ shell_escape_sh_double xs)
              literal)
      ∙ read-itself x (shell_escape_sh_double xs ++ quote ∷ rest) (in_quotes-itself x literal)
      ∙ ap (push x) (read-escape xs rest)
]

push_all-some :
    (s : List ℕ) (word : List ℕ) (words : List (List ℕ))
    → push_all s (some (word ∷ words)) ≡ some ((s ++ word) ∷ words)
push_all-some [] word words = refl
push_all-some (x ∷ xs) word words = ap (push x) (push_all-some xs word words)

append_assoc : (xs ys zs : List ℕ) → (xs ++ ys) ++ zs ≡ xs ++ (ys ++ zs)
append_assoc [] ys zs = refl
append_assoc (x ∷ xs) ys zs = ap (λ l. x ∷ l) (append_assoc xs ys zs)

append_nil : (xs : List ℕ) → xs ++ [] ≡ xs
append_nil [] = refl
append_nil (x ∷ xs) = ap (λ l. x ∷ l) (append_nil xs)

read-quote : (cs : List ℕ) → read between (quote ∷ cs) ≡ read in_text cs
unfolding read outside
read-quote cs = refl

read-space : (cs : List ℕ) → read in_word (space ∷ cs) ≡ new_word (read between cs)
unfolding read outside
read-space cs = refl

read-end : read in_word [] ≡ some ([] ∷ [])
unfolding read
read-end = refl

read-nil : read between [] ≡ some []
unfolding read
read-nil = refl

-- A quoted argument, and what follows it.
read-quoted_arg :
    (arg rest : List ℕ) (words : List (List ℕ))
    → read in_word rest ≡ some ([] ∷ words)
    → read between (quoted_arg arg ++ rest) ≡ some (arg ∷ words)
unfolding quoted_arg
read-quoted_arg arg rest words h =
    read-quote ((shell_escape_sh_double arg ++ quote ∷ []) ++ rest)
    ∙ ap (read in_text) (append_assoc (shell_escape_sh_double arg) (quote ∷ []) rest)
    ∙ read-escape arg rest
    ∙ ap (push_all arg) h
    ∙ push_all-some arg [] words
    ∙ ap (λ w. some (w ∷ words)) (append_nil arg)

read-shell_join : (args : List (List ℕ)) → read between (shell_join args) ≡ some args
unfolding shell_join join
read-shell_join [] = read-nil
read-shell_join (arg ∷ []) =
    ap (read between) (sym (append_nil (quoted_arg arg))) ∙ read-quoted_arg arg [] [] read-end
read-shell_join (arg ∷ next ∷ args) =
    read-quoted_arg arg (space ∷ shell_join (next ∷ args)) (next ∷ args)
      (read-space (shell_join (next ∷ args)) ∙ ap new_word (read-shell_join (next ∷ args)))

-- The prefix of the wrapped command.
read-sh :
    (cs : List ℕ)
    → read between (codes "sh -c \"" ++ cs)
      ≡ push 115 (push 104 (new_word (push 45 (push 99 (new_word (read in_text cs))))))
unfolding read outside
read-sh cs = refl

-- For any arguments and any sentinel path, a shell reads the wrapped command as the three words `sh`,
-- `-c` and the inner script, and the inner script's command as exactly the arguments.
pub read-build_wrapped_command :
    (args : List (List ℕ)) (sentinel_path : List ℕ)
    → (read between (build_wrapped_command args sentinel_path)
        ≡ some (codes "sh" ∷ codes "-c" ∷ inner_script args sentinel_path ∷ []))
      × (read between (shell_join args) ≡ some args)
unfolding build_wrapped_command
read-build_wrapped_command args sentinel_path =
    let inner = inner_script args sentinel_path in
    (
      read-sh (shell_escape_sh_double inner ++ codes "\"")
          ∙ ap (λ r. push 115 (push 104 (new_word (push 45 (push 99 (new_word r))))))
              (read-escape inner []
                ∙ ap (push_all inner) read-end
                ∙ push_all-some inner [] []
                ∙ ap (λ w. some (w ∷ [])) (append_nil inner)),
      read-shell_join args,
    )
