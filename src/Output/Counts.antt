-- ===== src/Output/Counts.antt =====
-- output.go: the count that `Write` returns, and when printing comes back.
use metassh.Base.{
  ℕ, ◌+◌, ◌-◌, ◌<◌, ◌≡◌, refl, ◌↔◌, true, Option, none, [], ◌∷◌, arith, length, Str, blocked,
}
use metassh.Output.Screen.{
  Output, pos, negsuc, munge, newlines, sent, write, do_output, err_out, out, debug,
}

length-munge : (p : Str) → length (munge p) ≡ length p + newlines p
unfolding munge newlines
length-munge [] = refl
length-munge (c ∷ cs) = ground (arith, length-munge cs)

-- If the writer below takes all that it is given, `Write` returns the length of the text that it
-- was given, though with `addCR` more bytes go out.
pub write_whole :
    (sink : Str → ℕ × Option Str) (p : Str) (o : Output)
    → ((q : Str) → sink q ≡ (length q, none))
    → (write sink p o).1 ≡ (pos (length p), none)
unfolding write
write_whole sink p o whole = let taken = whole (sent o p) in ground (arith, length-munge p)

-- The count is negative exactly when the writer takes fewer bytes than there are newlines in the
-- text and `addCR` is on.
pub write_negative :
    (sink : Str → ℕ × Option Str) (p : Str) (o : Output) (n : ℕ) (err : Option Str)
    → sink (sent o p) ≡ (n, err)
    → ((k : ℕ) × ((write sink p o).1 ≡ (negsuc k, err))) ↔ ((o.add_cr ≡ true) × (n < newlines p))
unfolding write
write_negative sink p o n err e =
    (λ (k, q). ground arith, λ (on, less). (newlines p - n - 1, ground arith))

-- `Out` and `Err` come back exactly when the output is not muted, and debugging output when
-- debugging is off or the output is not muted.
pub output_blocks :
    (text : Str) (o : Output)
    → ((out text o ≡ blocked) ↔ (o.mute ≡ true))
      × ((err_out text o ≡ blocked) ↔ (o.mute ≡ true))
      × ((debug text o ≡ blocked) ↔ ((o.debug_on ≡ true) × (o.mute ≡ true)))
unfolding out err_out debug do_output
output_blocks text o = (
  (λ q. ground arith, λ q. ground arith),
  (λ q. ground arith, λ q. ground arith),
  (λ q. ground arith, λ q. ground arith),
)
