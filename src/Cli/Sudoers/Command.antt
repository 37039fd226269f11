-- ===== src/Cli/Sudoers/Command.antt =====
-- What sudo reads from the fragment.
use usbipd_darwin.Common.{
  ℕ, List, [], ◌∷◌, ◌++◌, Option, none, some, Bool, true, false, ok, ◌==◌, nat_eq, text_eq,
  if◌then◌else◌, codes, ◌≡◌, ◌≢◌, ◌⊎◌, inl, inr, refl, ap, ◌∙◌, sym, arith, All, append_assoc,
  append-nil, Option-cases, Result-cases, Bool-cases, text_beq_iff,
}
use usbipd_darwin.Cli.Sudoers.{
  FilePath, Spec, is_safe_char, invalid_chars, terminates_word, escape_sudoers, check_args,
  write_args, preamble, rule, render, daemon_command, emit_sudoers,
}

-- The first word and the further ones.
abbrev Words : Type 0
Words = Option (List ℕ × List (List ℕ))

abbrev push : ℕ → Words → Words
push c none = none
push c (some (w, ws)) = some (c ∷ w, ws)

abbrev new_word : Words → Words
new_word none = none
new_word (some (w, ws)) = some ([], w ∷ ws)

-- The words of a command in sudoers(5): blanks separate them, a backslash takes the next character as
-- it is, and a character that ends a word otherwise is not part of a command.
unfoldable pub read_words : Bool → List ℕ → Words
read_words true [] = none
read_words false [] = some ([], [])
read_words true (c ∷ cs) = push c (read_words false cs)
read_words false (c ∷ cs) =
    let rest = read_words (c == 92) cs in
    if c == 92
    then rest
    else if c == 32
    then new_word rest
    else if terminates_word c
    then none
    else push c rest

abbrev pub IsSafe : List ℕ → Type 0
IsSafe s = All (λ c. is_safe_char c ≡ true) s

abbrev prepend : List ℕ → Words → Words
prepend w none = none
prepend w (some (v, ws)) = some (w ++ v, ws)

prepend-nil : (r : Words) → prepend [] r ≡ r
prepend-nil none = refl
prepend-nil (some (v, ws)) = refl

push-prepend : (c : ℕ) (w : List ℕ) (r : Words) → push c (prepend w r) ≡ prepend (c ∷ w) r
push-prepend c w none = refl
push-prepend c w (some (v, ws)) = refl

safe_char : (c : ℕ) → is_safe_char c ≡ true → (c ≢ 32) × (c ≢ 92)
unfolding is_safe_char
safe_char c h = ground arith

read_words-escape_sudoers :
    (w tail : List ℕ)
    → IsSafe w
    → read_words false (escape_sudoers w ++ tail) ≡ prepend w (read_words false tail)
unfolding read_words escape_sudoers
read_words-escape_sudoers [] tail h = sym (prepend-nil (read_words false tail))
read_words-escape_sudoers (c ∷ w) tail h =
    let (blank, backslash) = safe_char c h.0 in
    let rest = read_words false (escape_sudoers w ++ tail) in
    let step : read_words false (escape_sudoers (c ∷ w) ++ tail) ≡ push c rest =
      ground (arith, blank, backslash) in
    step
    ∙ ap (push c) (read_words-escape_sudoers w tail h.1)
    ∙ push-prepend c w (read_words false tail)

read_words-write_args :
    (args : List (List ℕ)) → All IsSafe args → read_words false (write_args args) ≡ some ([], args)
unfolding read_words write_args
read_words-write_args [] h = refl
read_words-write_args (a ∷ as') h =
    ap new_word (
      read_words-escape_sudoers a (write_args as') h.0
      ∙ ap (prepend a) (read_words-write_args as' h.1))
    ∙ ap (λ w. some ([], w ∷ as')) (append-nil a)

-- The words that the line behind the rule has.
abbrev pub command_line : List ℕ → List (List ℕ) → List ℕ
command_line binary args = escape_sudoers binary ++ write_args args

command_line-read :
    (binary : List ℕ) (args : List (List ℕ))
    → IsSafe binary
    → All IsSafe args
    → read_words false (command_line binary args) ≡ some (binary, args)
command_line-read binary args hb ha =
    read_words-escape_sudoers binary (write_args args) hb
    ∙ rw (read_words-write_args args ha) (ap (λ w. some (w, args)) (append-nil binary))

-- What the fragment can be made of.
pub record IsRenderable (spec : Spec) (binary : List ℕ) : Type 0 where
  pub group_filled : spec.group ≢ []
  pub group_safe : IsSafe spec.group
  pub absolute : spec.binary.is_absolute ≡ true
  pub binary_text : spec.binary.to_str ≡ some binary
  pub binary_safe : IsSafe binary
  pub args_filled : spec.args ≢ []
  pub each_filled : All (λ a. a ≢ []) spec.args
  pub each_safe : All IsSafe spec.args

invalid_chars-none : (s : List ℕ) → invalid_chars s ≡ none → IsSafe s
unfolding invalid_chars
invalid_chars-none [] h = tt
invalid_chars-none (c ∷ cs) h = elim (Bool-cases (is_safe_char c)) [
  | inl safe ↦ (safe, invalid_chars-none cs (ground arith))
  | inr unsafe ↦ absurd (ground arith)
]

check_args-ok :
    (args : List (List ℕ)) → check_args args ≡ ok tt → All (λ a. a ≢ []) args × All IsSafe args
unfolding check_args
check_args-ok [] h = (tt, tt)
check_args-ok ([] ∷ as') h = absurd (ground arith)
check_args-ok ((c ∷ cs) ∷ as') h = elim (Option-cases (invalid_chars (c ∷ cs))) [
  | inr (bad, found) ↦ absurd (ground arith)
  | inl none_bad ↦
      let (filled, safe) = check_args-ok as' (ground arith) in
      ((λ e. ground arith, filled), (invalid_chars-none (c ∷ cs) none_bad, safe))
]

-- A fragment that is rendered has a group, a binary and arguments that cannot be anything else to sudo
-- than words, and its last line is the rule and a command that sudo reads as the binary and exactly
-- those arguments.
pub render-read_words :
    (spec : Spec) (out : List ℕ)
    → render spec ≡ ok out
    → (binary : List ℕ) × IsRenderable spec binary
      × (out ≡ preamble ++ (rule spec.group ++ (command_line binary spec.args ++ (10 ∷ []))))
      × (read_words false (command_line binary spec.args) ≡ some (binary, spec.args))
unfolding render
render-read_words spec out h = elim (Option-cases (invalid_chars spec.group)) [
  | inr (c, h1) ↦ absurd (ground arith)
  | inl h1 ↦ elim (Option-cases spec.binary.to_str) [
    | inl h2 ↦ absurd (ground arith)
    | inr (binary, h2) ↦ elim (Option-cases (invalid_chars binary)) [
      | inr (c, h3) ↦ absurd (ground arith)
      | inl h3 ↦ elim (Result-cases (check_args spec.args)) [
        | inr (e, h4) ↦ absurd (ground arith)
        | inl (done, h4) ↦
            let (filled, safe) = check_args-ok spec.args h4 in
            let binary_safe = invalid_chars-none binary h3 in
            (
              binary,
              record {
                group_filled = λ e. ground arith;
                group_safe = invalid_chars-none spec.group h1;
                absolute = ground arith;
                binary_text = h2;
                binary_safe = binary_safe;
                args_filled = λ e. ground arith;
                each_filled = filled;
                each_safe = safe;
              },
              ground (arith, append_assoc (escape_sudoers binary) (write_args spec.args) (10 ∷ [])),
              command_line-read binary spec.args binary_safe safe,
            )
      ]
    ]
  ]
]

-- The arguments behind `daemon`, whether it was given or not.
abbrev pub IsBehind : List (List ℕ) → List (List ℕ) → Type 0
IsBehind daemon_args args =
    (daemon_args ≡ args) × ((rest : List (List ℕ)) → daemon_args ≢ codes "daemon" ∷ rest)
    ⊎ (daemon_args ≡ codes "daemon" ∷ args)

first_word :
    (a : List ℕ) (as' rest : List (List ℕ)) → a ∷ as' ≡ codes "daemon" ∷ rest → a ≡ codes "daemon"
first_word a as' rest e = ground arith

daemon_command-daemon :
    (daemon_args : List (List ℕ))
    → (args : List (List ℕ)) × IsBehind daemon_args args
      × (daemon_command daemon_args ≡ codes "daemon" ∷ args)
unfolding daemon_command
daemon_command-daemon [] = ([], inl (refl, λ rest e. ground arith), refl)
daemon_command-daemon (a ∷ as') = elim (Bool-cases (a == codes "daemon")) [
  | inl h ↦
      let same : a ≡ codes "daemon" = (text_beq_iff a (codes "daemon")).0 h in
      (as', inr (ap (λ x. x ∷ as') same), rw h (ap (λ x. x ∷ as') same))
  | inr h ↦ (
    a ∷ as',
    inl (
      refl,
      λ rest e. ground (arith, h, text_beq_iff a (codes "daemon"), first_word a as' rest e),
    ),
    rw h refl,
  )
]

-- What `emit_sudoers` prints ends in a command that sudo reads as the binary, `daemon`, and further
-- arguments: those that were given, where the first of them is not `daemon`, and those behind it where
-- it is.
pub emit_sudoers-read_words :
    (group : List ℕ) (path : FilePath) (daemon_args : List (List ℕ)) (out : List ℕ)
    → emit_sudoers group path daemon_args ≡ ok out
    → (binary : List ℕ) × (args : List (List ℕ)) × (path.to_str ≡ some binary)
      × (path.is_absolute ≡ true)
      × IsBehind daemon_args args
      × (out
          ≡ preamble ++ (rule group ++ (command_line binary (codes "daemon" ∷ args) ++ (10 ∷ []))))
      × (read_words false (command_line binary (codes "daemon" ∷ args))
          ≡ some (binary, codes "daemon" ∷ args))
unfolding emit_sudoers
emit_sudoers-read_words group path daemon_args out h =
    let spec : Spec = record { group = group; binary = path; args = daemon_command daemon_args } in
    let (binary, renderable, printed, read) = render-read_words spec out h in
    let (args, given, pinned) = daemon_command-daemon daemon_args in
    (
      binary,
      args,
      renderable.binary_text,
      renderable.absolute,
      given,
      printed ∙ ap (λ a. preamble ++ (rule group ++ (command_line binary a ++ (10 ∷ [])))) pinned,
      ap (λ a. read_words false (command_line binary a)) (sym pinned)
          ∙ read
          ∙ ap (λ a. some (binary, a)) pinned,
    )
