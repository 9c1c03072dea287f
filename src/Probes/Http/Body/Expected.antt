-- ===== src/Probes/Http/Body/Expected.antt =====
-- The comparison of a received frame with the expected text.
use salus_rs.Prelude.{
  ℕ, ◌-◌, ◌≡◌, refl, sym, ◌∙◌, true, false, Option, none, some, [], ◌∷◌, ◌++◌, arith, leb, length,
  take, drop, take_all, take-append_le, length-append, Bytes, equal, equal_iff,
}
use salus_rs.Capture.{CaptureBuffer}
use salus_rs.Probes.Http.Body.{mismatch, differs}

drop_lem : (old rest : Bytes) → drop (length old) (old ++ rest) ≡ rest
drop_lem [] rest = refl
drop_lem (c ∷ old) rest = drop_lem old rest

slice_lem :
    (old chunk more : Bytes)
    → take (length (old ++ chunk) - length old) (drop (length old) (old ++ (chunk ++ more))) ≡ chunk
slice_lem old chunk more =
    let len : length (old ++ chunk) - length old ≡ length chunk =
      omega (arith, length-append old chunk) in
    rw (len, drop_lem old (chunk ++ more))
      (take-append_le (length chunk) chunk more (omega arith)
        ∙ take_all (length chunk) chunk (omega arith))

-- What was appended is the part of the expected text that stands there.
differs_lem :
    (old chunk more : Bytes)
    → differs
        (old ++ (chunk ++ more))
        (length old)
        (length (old ++ chunk))
        (drop (length old) (old ++ chunk))
      ≡ false
unfolding differs
differs_lem old chunk more =
    let fits : leb (length (old ++ chunk)) (length (old ++ (chunk ++ more))) ≡ true = ground (
      arith,
      length-append old chunk,
      length-append old (chunk ++ more),
      length-append chunk more,
    ) in
    let same : equal
          (take (length (old ++ chunk) - length old) (drop (length old) (old ++ (chunk ++ more))))
          (drop (length old) (old ++ chunk))
        ≡ true =
      (equal_iff _ _).1 (slice_lem old chunk more ∙ sym (drop_lem old chunk)) in
    rw (fits, same, differs)

pub mismatch_lem :
    (o : Option Bytes) (content : CaptureBuffer) (old chunk more : Bytes) (previous_len : ℕ)
    → ((expected : Bytes) → o ≡ some expected → old ++ (chunk ++ more) ≡ expected)
    → content.bytes ≡ old ++ chunk
    → previous_len ≡ length old
    → mismatch o content previous_len false ≡ false
unfolding mismatch
mismatch_lem none content old chunk more previous_len agrees e e' = refl
mismatch_lem (some expected) content old chunk more previous_len agrees e e' =
    rw (e, e', ← agrees expected refl, differs_lem old chunk more, mismatch)
