-- ===== src/Sockets/Buffer.antt =====
-- What a program prints of the buffer it read into.
use lkp.Msi.Memory.Strings.{string_at-nul, string_at-memcpy}
use lkp.Msi.Memory.{IsText}
use lkp.Sockets.Program.{buffer_text}
use lkp.Prelude.{ℕ, List, ◌++◌, length, ◌≤◌, ◌≡◌, ◌∙◌, refl, ap, ◌+◌, ◌-◌, append-nil}

-- The buffer prints the text that was read into it.
pub buffer_text-IsText : (r : List ℕ) → IsText r → length r ≤ 4096 → buffer_text r ≡ r
unfolding buffer_text
buffer_text-IsText r t h =
    string_at-memcpy r 4096 (λ _. 0) 0 t h
    ∙ ap (◌++◌ r) (string_at-nul (4096 - length r) (λ _. 0) (0 + length r) refl)
    ∙ append-nil r
