-- ===== src/Deploy/Words.antt =====
-- `split_command` of src/deploy.rs against a writer that escapes every character.
use shellfleet_agent.Common.{
  ℕ, false, List, [], ◌∷◌, ◌++◌, none, is_empty, Text, is_whitespace, All, ◌≡◌, ◌∙◌, ap, refl, sym,
  append_assoc, append-nil,
}
use shellfleet_agent.Deploy.{Splitter, split_step, split_from, split_command, end_word}

-- Every character behind a backslash.
unfoldable pub escape : Text → Text
escape [] = []
escape (c ∷ s) = b'\\' ∷ c ∷ escape s

-- The escaped words, each with a space behind it.
unfoldable pub write_command : List Text → Text
write_command [] = []
write_command (w ∷ ws) = escape w ++ (b' ' ∷ write_command ws)

-- Outside of quotes and escapes.
abbrev at : List Text → Text → Splitter
at out cur = record { out = out; cur = cur; quote = none; escaped = false }

split_from-escape :
    (w rest cur : Text) (out : List Text)
    → split_from (at out cur) (escape w ++ rest) ≡ split_from (at out (cur ++ w)) rest
unfolding split_from split_step escape
split_from-escape [] rest cur out = ap (λ t. split_from (at out t) rest) (sym (append-nil cur))
split_from-escape (c ∷ w) rest cur out =
    split_from-escape w rest (cur ++ c ∷ []) out
    ∙ ap (λ t. split_from (at out t) rest) (append_assoc cur (c ∷ []) w)

-- A space ends a word that has begun.
split_from-space :
    (c : ℕ) (cur rest : Text) (out : List Text)
    → split_from (at out (c ∷ cur)) (b' ' ∷ rest) ≡ split_from (at (out ++ (c ∷ cur) ∷ []) []) rest
unfolding split_from split_step is_whitespace
split_from-space c cur rest out = refl

split_from-write_command :
    (ws out : List Text)
    → All (λ w. is_empty w ≡ false) ws
    → split_from (at out []) (write_command ws) ≡ at (out ++ ws) []
unfolding write_command split_from
split_from-write_command [] out h = ap (λ t. at t []) (sym (append-nil out))
split_from-write_command ((c ∷ w) ∷ ws) out h =
    split_from-escape (c ∷ w) (b' ' ∷ write_command ws) [] out
    ∙ split_from-space c w (write_command ws) out
    ∙ split_from-write_command ws (out ++ (c ∷ w) ∷ []) h.1
    ∙ ap (λ t. at t []) (append_assoc out ((c ∷ w) ∷ []) ws)
split_from-write_command ([] ∷ ws) out h = cc

-- Words that are not empty, whatever characters they hold, come back from `split_command` when
-- each of their characters is written behind a backslash and each word ends with a space.
pub split_command-write_command :
    (ws : List Text) → All (λ w. is_empty w ≡ false) ws → split_command (write_command ws) ≡ ws
unfolding split_command
split_command-write_command ws h = ap (λ s. (end_word s).out) (split_from-write_command ws [] h)
