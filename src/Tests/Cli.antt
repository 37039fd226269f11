-- ===== src/Tests/Cli.antt =====
-- The command line of crates/usbipd.
use usbipd_darwin.Common.{
  ℕ, List, [], ◌∷◌, ◌++◌, some, ok, true, false, codes, refl, ◌≡◌, text_eq, nat_eq,
}
use usbipd_darwin.Cli.Sudoers.{
  FilePath, Spec, render, emit_sudoers, daemon_command, preamble, rule, escape_sudoers,
  terminates_word, write_args, check_args, invalid_chars, is_safe_char,
}
use usbipd_darwin.Cli.Sudoers.Command.{IsBehind, command_line, read_words, emit_sudoers-read_words}

abbrev binary_text : List ℕ
binary_text = codes "/bin/usbipd"

abbrev binary_path : FilePath
binary_path = record { is_absolute = true; to_str = some binary_text }

abbrev given : List (List ℕ)
given = codes "--allow" ∷ codes "0781:5530" ∷ []

abbrev pinned : Spec
pinned = record { group = codes "admin"; binary = binary_path; args = codes "daemon" ∷ given }

abbrev fragment : List ℕ
fragment =
    preamble
    ++ (rule (codes "admin")
        ++ (escape_sudoers binary_text ++ (write_args (codes "daemon" ∷ given) ++ (10 ∷ []))))

renders : render pinned ≡ ok fragment
unfolding render check_args invalid_chars is_safe_char
renders = refl

emits : emit_sudoers (codes "admin") binary_path given ≡ ok fragment
unfolding emit_sudoers daemon_command render check_args invalid_chars is_safe_char
emits = refl

-- The colon of the pair is escaped.
escaped_pair : escape_sudoers (codes "0781:5530") ≡ codes "0781" ++ (92 ∷ codes ":5530")
unfolding escape_sudoers terminates_word
escaped_pair = refl

emit_sudoers-read_words_example :
    (binary : List ℕ) × (args : List (List ℕ)) × (binary_path.to_str ≡ some binary)
    × (binary_path.is_absolute ≡ true)
    × IsBehind given args
    × (fragment
        ≡ preamble
          ++ (rule (codes "admin") ++ (command_line binary (codes "daemon" ∷ args) ++ (10 ∷ []))))
    × (read_words false (command_line binary (codes "daemon" ∷ args))
        ≡ some (binary, codes "daemon" ∷ args))
emit_sudoers-read_words_example =
    emit_sudoers-read_words (codes "admin") binary_path given fragment emits
