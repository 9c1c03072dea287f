-- ===== src/Probes/Exec/Output/Verdict.antt =====
-- What the check of an output stream proves of the child's whole output.
use salus_rs.Prelude.{
  ℕ, String, ◌≡◌, refl, sym, ap, ◌∙◌, subst, true, false, not, ◌&&◌, ◌||◌, List, [], ◌∷◌, ◌++◌,
  arith, all, All, Bytes, Text, codes, ok, err, Bool-cases, inl, inr,
}
use salus_rs.Error.{AppError, Piece, failure, lit}
use salus_rs.TextMatch.{contains_slice}
use salus_rs.TextMatch.Occurs.{Occurs, contains_slice_iff, all_contains-append, all_contains-Occurs}
use salus_rs.Probes.Exec.Output.{
  Read, Wake, BufferedOutput, await_output_task, check_output, missing_required_output_error,
  reached_capture_boundary_before_eof, output_limit_error, output_open_error, output_absent_error,
}
use salus_rs.Probes.Exec.Output.Tracked.{written, reads_of, await_output_task-Outcome}

-- The text behind the stream's and the command's name.
abbrev fourth_text : AppError → Text
fourth_text (failure (a ∷ b ∷ c ∷ lit s ∷ m)) = codes s
fourth_text _ = []

abbrev second_code : Text → ℕ
second_code (a ∷ b ∷ s) = b
second_code _ = 0

module _ (stream_name : String) (command_label : Piece) (max_output : ℕ) where
  check_output-ok :
      (output : BufferedOutput) (needles : List Bytes)
      → check_output stream_name command_label max_output output needles ≡ ok tt
      → all (contains_slice output.content.bytes) needles ≡ true
  unfolding check_output
  check_output-ok output [] h = refl
  check_output-ok output (n ∷ ns) h = ground (arith, check_output-ok output ns)

  -- The text that is complained of is not in the buffer, and the complaint is that of its state.
  check_output-err :
      (output : BufferedOutput) (needles : List Bytes) {e : AppError}
      → check_output stream_name command_label max_output output needles ≡ err e
      → (needle : Bytes) × (contains_slice output.content.bytes needle ≡ false)
        × (e ≡ missing_required_output_error stream_name command_label max_output output needle)
  unfolding check_output
  check_output-err output [] h = absurd (ground arith)
  check_output-err output (n ∷ ns) {e} h =
      elim (Bool-cases (contains_slice output.content.bytes n)) [
        | inl there ↦ check_output-err output ns (ground (arith, h, there))
        | inr missing ↦ (n, missing, ground (arith, h, missing))
      ]

  open_absent :
      (needle wanted : Bytes)
      → output_open_error stream_name command_label max_output needle
        ≡ output_absent_error stream_name command_label max_output wanted
      → ⊥
  unfolding output_open_error output_absent_error
  open_absent needle wanted h =
      let letters : b'r' ≡ b'd' = ap (λ e. second_code (fourth_text e)) h in omega (arith, letters)

  limit_absent :
      (needle wanted : Bytes)
      → output_limit_error stream_name command_label max_output needle
        ≡ output_absent_error stream_name command_label max_output wanted
      → ⊥
  unfolding output_limit_error output_absent_error
  limit_absent needle wanted h = ground (arith, h)

  absent_absent :
      (needle wanted : Bytes)
      → output_absent_error stream_name command_label max_output needle
        ≡ output_absent_error stream_name command_label max_output wanted
      → needle ≡ wanted
  unfolding output_absent_error
  absent_absent needle wanted h = ground (arith, h)

  -- A text is called absent only where the output is complete and was not cut.
  absent_lem :
      (output : BufferedOutput) (needle wanted : Bytes)
      → missing_required_output_error stream_name command_label max_output output needle
        ≡ output_absent_error stream_name command_label max_output wanted
      → (output.content.incomplete ≡ false) × (output.complete ≡ true) × (needle ≡ wanted)
  unfolding missing_required_output_error reached_capture_boundary_before_eof
  absent_lem output needle wanted h =
      elim (Bool-cases
        (output.content.incomplete || (output.limit_reached && not output.complete))) [
          | inl boundary ↦ absurd (limit_absent needle wanted (sym (rw boundary refl) ∙ h))
          | inr whole ↦ elim (Bool-cases output.complete) [
            | inl complete ↦ (
              ground (arith, whole),
              complete,
              absent_absent needle wanted (sym (rw (whole, complete) refl) ∙ h),
            )
            | inr still_open ↦
                absurd (open_absent needle wanted (sym (rw (whole, still_open) refl) ∙ h))
          ]
        ]

  module _ (latest deadline now : ℕ) (before : List Read) (wakes : List Wake) (needles : List Bytes)
      {output : BufferedOutput} where
    -- If the check passes, every required text stands in what the child wrote.
    pub check_output-Occurs :
        (await_output_task max_output needles latest deadline now true before wakes).0 ≡ ok output
        → check_output stream_name command_label max_output output needles ≡ ok tt
        → All (λ needle. Occurs needle (written (before ++ reads_of wakes))) needles
    check_output-Occurs waited passed =
        let o =
          await_output_task-Outcome max_output needles latest deadline now before wakes waited in
        subst (λ t. All (λ needle. Occurs needle t) needles) (sym o.prefix)
          (all_contains-Occurs _ needles (
            all_contains-append output.content.bytes o.rest needles
              (check_output-ok output needles passed)))

    -- If the check says that the output does not contain a text, then nothing that the child wrote
    -- contains it.
    pub check_output-absent :
        (needle : Bytes)
        → (await_output_task max_output needles latest deadline now true before wakes).0 ≡ ok output
        → check_output stream_name command_label max_output output needles
          ≡ err (output_absent_error stream_name command_label max_output needle)
        → ¬ Occurs needle (written (before ++ reads_of wakes))
    check_output-absent needle waited failed occurs =
        let o =
          await_output_task-Outcome max_output needles latest deadline now before wakes waited in
        let (found, missing, complaint) = check_output-err output needles failed in
        let (uncut, complete, same) = absent_lem output found needle (sym complaint) in
        let here : contains_slice output.content.bytes needle ≡ true =
          (contains_slice_iff output.content.bytes needle).1
            (subst (Occurs needle) (o.whole complete uncut) occurs) in
        cc (here, missing, same)
