-- ===== src/Exec/Tests.antt =====
-- The quoting and the capped output at concrete inputs.
use osg_gateway.Base.{ℕ, ◌+◌, ◌≤◌, length, String, ◌≡◌, refl, some, List, [], ◌∷◌}
use osg_gateway.Exec.{shell_join}
use osg_gateway.Exec.Quoting.{gap, shell_words, words-shell_join}
use osg_gateway.Exec.Output.{
  Byte, suffix, write, write_all, empty_buffer, limited, write_all-limited,
}

abbrev b : ℕ
b = 65

abbrev argv : List String
argv = "echo" ∷ "it's" ∷ "" ∷ "$(id)" ∷ []

argv_line : shell_join argv ≡ "echo 'it'\\''s' '' '$(id)'"
unfolding shell_join
argv_line = refl

words-shell_join_example : shell_words gap (shell_join argv) ≡ some argv
words-shell_join_example = words-shell_join argv

write_all-limited_example :
    let out = write_all ((b ∷ b ∷ []) ∷ (b ∷ b ∷ []) ∷ []) (empty_buffer 3) in
    (out.buf ≡ limited 3 (b ∷ b ∷ b ∷ b ∷ []))
    × (length out.buf ≤ 3 + length suffix)
    × ((p : List Byte) → (write p out).0 ≡ length p)
write_all-limited_example = write_all-limited 3 ((b ∷ b ∷ []) ∷ (b ∷ b ∷ []) ∷ [])
