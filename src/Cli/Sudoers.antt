-- ===== src/Cli/Sudoers.antt =====
-- crates/usbipd/src/sudoers.rs, and `emit_sudoers` of main.rs up to the printing.
pub mod Command
use usbipd_darwin.Common.{
  ℕ, List, [], ◌∷◌, ◌++◌, Option, none, some, Bool, true, false, not, ◌&&◌, ◌||◌, Result, ok, err,
  ◌>>=◌, ok_or, ◌==◌, nat_eq, text_eq, leb, if◌then◌else◌, find, codes,
}

-- What is asked of a `std::path::Path`.
pub record FilePath : Type 0 where
  pub is_absolute : Bool
  pub to_str : Option (List ℕ)

pub record Spec : Type 0 where
  pub group : List ℕ
  pub binary : FilePath
  pub args : List (List ℕ)

-- The messages, with the character that they name.
pub data RenderError : Type 0 where
  empty_group relative_binary binary_not_utf8 no_args empty_arg : RenderError
  group_char binary_char arg_char : ℕ → RenderError

abbrev in_range : ℕ → ℕ → ℕ → Bool
in_range lo hi c = leb lo c && leb c hi

unfoldable pub is_ascii_alphanumeric : ℕ → Bool
is_ascii_alphanumeric c = in_range b'0' b'9' c || in_range b'A' b'Z' c || in_range b'a' b'z' c

abbrev one_of : List ℕ → ℕ → Bool
one_of [] c = false
one_of (x ∷ xs) c = c == x || one_of xs c

-- `matches!(c, '.' | '/' | ':' | '=' | '-' | '_' | '+' | '@' | '%')`
unfoldable pub is_safe_char : ℕ → Bool
unfolding is_ascii_alphanumeric
is_safe_char c = is_ascii_alphanumeric c || one_of (codes "./:=-_+@%") c

unfoldable pub invalid_chars : List ℕ → Option ℕ
invalid_chars s = find (λ c. not (is_safe_char c)) s

-- `matches!(c, ':' | ',' | '=' | '!' | '(' | ')' | '\\')`
unfoldable pub terminates_word : ℕ → Bool
terminates_word c = one_of (58 ∷ 44 ∷ 61 ∷ 33 ∷ 40 ∷ 41 ∷ 92 ∷ []) c

unfoldable pub escape_sudoers : List ℕ → List ℕ
escape_sudoers [] = []
escape_sudoers (c ∷ cs) =
    let rest = escape_sudoers cs in if terminates_word c then 92 ∷ c ∷ rest else c ∷ rest

check_chars : (ℕ → RenderError) → List ℕ → Result (Unit {0}) RenderError
check_chars error s = elim (invalid_chars s) as (λ _. Result (Unit {0}) RenderError) [
  | some c ↦ err (error c)
  | none ↦ ok tt
]

-- `if s.is_empty() { return Err(..) }`
check_filled : {A : Type 0} → RenderError → List A → Result (Unit {0}) RenderError
check_filled error [] = err error
check_filled error (x ∷ xs) = ok tt

-- `for a in spec.args`
unfoldable pub check_args : List (List ℕ) → Result (Unit {0}) RenderError
unfolding check_chars check_filled
check_args [] = ok tt
check_args (a ∷ as') = do _ ← check_filled empty_arg a; _ ← check_chars arg_char a; check_args as'

-- `write!(out, " {}", escape_sudoers(a))`
unfoldable pub write_args : List (List ℕ) → List ℕ
write_args [] = []
write_args (a ∷ as') = 32 ∷ (escape_sudoers a ++ write_args as')

-- The three comment lines and the empty one.
unfoldable pub preamble : List ℕ
preamble =
    codes "# Generated by `usbipd sudoers` — do not edit by hand."
    ++ (10 ∷ codes "# Install with:  usbipd sudoers ... | sudo tee /etc/sudoers.d/usbipd"
        ++ (10 ∷ codes "# Re-run whenever the binary path or daemon arguments change."
            ++ (10 ∷ 10 ∷ [])))

unfoldable pub rule : List ℕ → List ℕ
rule group = 37 ∷ (group ++ codes " ALL=(root:wheel) NOPASSWD:NOSETENV: ")

check_absolute : FilePath → Result (Unit {0}) RenderError
check_absolute p = if p.is_absolute then ok tt else err relative_binary

unfoldable pub render : Spec → Result (List ℕ) RenderError
unfolding check_chars check_filled check_absolute
render spec = do
  _ ← check_filled empty_group spec.group
  _ ← check_chars group_char spec.group
  _ ← check_absolute spec.binary
  binary ← ok_or spec.binary.to_str binary_not_utf8
  _ ← check_chars binary_char binary
  _ ← check_filled no_args spec.args
  _ ← check_args spec.args
  ok (
      preamble
      ++ (rule spec.group ++ (escape_sudoers binary ++ (write_args spec.args ++ (10 ∷ [])))))

-- The arguments that `emit_sudoers` pins.
unfoldable pub daemon_command : List (List ℕ) → List (List ℕ)
daemon_command [] = codes "daemon" ∷ []
daemon_command (a ∷ as') = if a == codes "daemon" then a ∷ as' else codes "daemon" ∷ a ∷ as'

unfoldable pub emit_sudoers : List ℕ → FilePath → List (List ℕ) → Result (List ℕ) RenderError
emit_sudoers group binary daemon_args =
    render (record { group = group; binary = binary; args = daemon_command daemon_args })
