-- ===== src/Shell/Commands/Words.antt =====
-- The texts that `echo` and `sendmsg` of src/fs/shell.c put together.
use ios.Prelude.{
  ℕ, suc, ◌+◌, ◌<◌, ◌≤◌, ◌≡◌, List, [], ◌∷◌, leb, arith, refl, length, length-append, Bool-cases,
  inl, inr, ap,
}
use ios.Text.{strlen}
use ios.Shell.Commands.{joined, echo_text, message_text}

strlen_lem : (l : List ℕ) → strlen l ≡ length l
unfolding strlen
strlen_lem [] = refl
strlen_lem (c ∷ l) = ap suc (strlen_lem l)

joined-length :
    (limit at : ℕ) (ws : List (List ℕ)) → at ≤ limit → at + length (joined limit at ws) ≤ limit
unfolding joined
joined-length limit at [] le = omega arith
joined-length limit at (w ∷ []) le = elim (Bool-cases (leb limit (at + strlen w))) [
  | inl full ↦ rw full (omega arith)
  | inr fits ↦ rw fits (ground (arith, strlen_lem w))
]
joined-length limit at (w ∷ v ∷ ws) le = elim (Bool-cases (leb limit (at + strlen w))) [
  | inl full ↦ rw full (omega arith)
  | inr fits ↦
      let small : at + strlen w < limit = ground arith in
      rw (fits, length-append w (32 ∷ joined limit (at + strlen w + 1) (v ∷ ws)))
        (omega (
          arith,
          strlen_lem w,
          joined-length limit (at + strlen w + 1) (v ∷ ws) (omega (arith, small)),
        ))
]

-- The text of `echo` leaves room for the terminator in its array of 1000 bytes, and the text of
-- `sendmsg` in its array of 512, whatever the arguments.
pub texts-length :
    (argv : List (List ℕ)) → (length (echo_text argv) < 1000) × (length (message_text argv) < 512)
unfolding echo_text message_text
texts-length [] = (omega arith, omega arith)
texts-length (w ∷ []) = (omega (arith, joined-length 999 0 []), omega arith)
texts-length (w ∷ target ∷ ws) =
    (omega (arith, joined-length 999 0 (target ∷ ws)), omega (arith, joined-length 511 0 ws))
