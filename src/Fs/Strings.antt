-- ===== src/Fs/Strings.antt =====
-- C strings inside the blocks of oscdfs: arrays of bytes that a NUL ends.
use ostd_final.Common.{
  ℕ, zero, suc, ◌+◌, Bool, false, Option, none, some, [], ◌∷◌, ◌==◌, if◌then◌else◌,
}
use ostd_final.Common.Text.{Text}
use ostd_final.Fs.Bytes.{Block, load8}

-- the string in the n bytes from o on, which ends with them if they hold no NUL
unfoldable pub c_string : Block → ℕ → ℕ → Text
c_string b o zero = []
c_string b o (suc n) = if load8 b o == 0 then [] else load8 b o ∷ c_string b (o + 1) n

-- the bytes that strncpy copies: the string, then zeros
unfoldable pub text_bytes : Text → Block
text_bytes [] i = 0
text_bytes (c ∷ t) zero = c
text_bytes (c ∷ t) (suc i) = text_bytes t i

-- `strcmp(&b[o], t) == 0`, in an array that has `room` bytes from o on; nothing where it reads behind them
unfoldable pub strcmp_at : Block → (o room : ℕ) → Text → Option Bool
strcmp_at b o zero t = none
strcmp_at b o (suc room) [] = some (load8 b o == 0)
strcmp_at b o (suc room) (c ∷ t) =
    let rest = strcmp_at b (o + 1) room t in if load8 b o == c then rest else some false
