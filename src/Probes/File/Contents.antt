-- ===== src/Probes/File/Contents.antt =====
-- The reading loop may stop early, and decides as a read of the whole file would.
use salus_rs.Prelude.{
  ℕ, ◌-◌, ◌≡◌, refl, sym, ap, ◌∙◌, subst, true, false, not, ◌&&◌, ◌||◌, inl, inr, List, [], ◌∷◌,
  ◌++◌, map, append_assoc, append-nil, arith, ltb, is_nil, all, All, is_nil-eq, ◌↔◌, length, take,
  take-append, length-append, Bool-cases, Bytes, OsStr, ok,
}
use salus_rs.Capture.{CaptureBuffer, default, append_limited}
use salus_rs.Capture.Limit.{Holds, default-Holds, append_limited-Holds}
use salus_rs.Capture.Watched.{watched-IsTracking}
use salus_rs.TextMatch.{TextMatcher, new, contains_slice, observe_appended, all_matched}
use salus_rs.TextMatch.Occurs.{
  Occurs, all_contains-append, all_contains-Occurs, Occurs-all_contains,
}
use salus_rs.TextMatch.Tracking.{
  IsTracking, new-IsTracking, all_matched_lem, needles-new, needles-observe_appended,
}
use salus_rs.Probes.File.{
  FileArgs, FileSystem, chunk, check_contents, read_loop, read_file, check_texts,
}

-- What a reader gets that never stops early: the chunks up to the first empty one.
abbrev pub contents : List Bytes → Bytes
contents [] = []
contents ([] ∷ chunks) = []
contents ((c ∷ cs) ∷ chunks) = (c ∷ cs) ++ contents chunks

-- The verdict of a buffer is that of the first `limit` bytes, and where it is negative the
-- buffer holds all of these.
pub record Decides (limit : ℕ) (required : List Bytes) (total : Bytes) (b : CaptureBuffer)
    : Type 0 where
  pub verdict :
      all (contains_slice b.bytes) required ≡ all (contains_slice (take limit total)) required
  pub exhausted : all (contains_slice b.bytes) required ≡ false → Holds limit total b

module _ (limit : ℕ) (required : List Bytes) where
  Holds-Decides :
      {total : Bytes} {b : CaptureBuffer} → Holds limit total b → Decides limit required total b
  Holds-Decides h = record {
    verdict = ap (λ t. all (contains_slice t) required) h.prefix;
    exhausted = λ _. h;
  }

  -- The buffer is full: what follows in the stream changes nothing.
  full-Holds :
      {b : CaptureBuffer} (seen more : Bytes)
      → Holds limit seen b
      → b.incomplete ≡ true
      → Holds limit (seen ++ more) b
  full-Holds {b} seen more h full =
      let over : ltb limit (length seen) ≡ true = sym h.truncated ∙ full in
      let none_left : limit - length seen ≡ 0 = ground arith in
      let total : ltb limit (length (seen ++ more)) ≡ true =
        ground (arith, length-append seen more) in
      record {
        prefix =
            h.prefix
            ∙ sym (append-nil _)
            ∙ ap (λ k. take limit seen ++ take k more) (sym none_left)
            ∙ sym (take-append limit seen more);
        truncated = full ∙ sym total;
      }

  -- Every text has been found already.
  matched-Decides :
      {b : CaptureBuffer} (seen more : Bytes)
      → Holds limit seen b
      → all (contains_slice b.bytes) required ≡ true
      → Decides limit required (seen ++ more) b
  matched-Decides {b} seen more h found =
      let more' = take (limit - length seen) more in
      record {
        verdict =
            found
            ∙ sym (
                rw (take-append limit seen more, ← h.prefix)
                  (all_contains-append b.bytes more' required found));
        exhausted = λ e. cc (found, e);
      }

  -- The two reasons to stop.
  stopped-Decides :
      {b : CaptureBuffer} (m : TextMatcher) (seen more : Bytes)
      → Holds limit seen b
      → IsTracking b.bytes m
      → m.needles ≡ required
      → ((not (is_nil required) && all_matched m) || b.incomplete) ≡ true
      → Decides limit required (seen ++ more) b
  stopped-Decides {b} m seen more h t e stop = elim (Bool-cases b.incomplete) [
    | inl full ↦ Holds-Decides (full-Holds seen more h full)
    | inr room ↦
        let found : all_matched m ≡ true = ground arith in
        matched-Decides seen more h (
          subst (λ ns. all (contains_slice b.bytes) ns ≡ true) e
            (sym (all_matched_lem b.bytes m t) ∙ found))
  ]

  loop-Decides :
      (file : OsStr) (chunks : List Bytes) (seen : Bytes) (b : CaptureBuffer) (m : TextMatcher)
      → Holds limit seen b
      → IsTracking b.bytes m
      → m.needles ≡ required
      → (b' : CaptureBuffer) × (read_loop file limit required b m (map chunk chunks) ≡ ok b')
        × Decides limit required (seen ++ contents chunks) b'
  unfolding read_loop
  loop-Decides file [] seen b m h t e =
      (b, refl, subst (λ s. Decides limit required s b) (sym (append-nil seen)) (Holds-Decides h))
  loop-Decides file ([] ∷ chunks) seen b m h t e =
      (b, refl, subst (λ s. Decides limit required s b) (sym (append-nil seen)) (Holds-Decides h))
  loop-Decides file ((c ∷ cs) ∷ chunks) seen b m h t e =
      let buffer : Bytes = c ∷ cs in
      let b1 = (append_limited b buffer limit).0 in
      let m1 = observe_appended m b1.bytes (append_limited b buffer limit).1 in
      let h1 = append_limited-Holds limit seen buffer b h in
      let t1 = watched-IsTracking b m buffer limit t in
      let e1 : m1.needles ≡ required = needles-observe_appended m _ _ ∙ e in
      let regroup = append_assoc seen buffer (contents chunks) in
      elim (Bool-cases ((not (is_nil required) && all_matched m1) || b1.incomplete)) [
        | inl stop ↦ (
          b1,
          rw stop,
          subst (λ s. Decides limit required s b1) regroup
              (stopped-Decides m1 (seen ++ buffer) (contents chunks) h1 t1 e1 stop),
        )
        | inr go ↦
            let (b2, run, d) = loop-Decides file chunks (seen ++ buffer) b1 m1 h1 t1 e1 in
            (b2, rw go run, subst (λ s. Decides limit required s b2) regroup d)
      ]

  -- `read_file` over chunks that are all read without an error.
  pub read_file-Decides :
      (file : OsStr) (chunks : List Bytes)
      → (b : CaptureBuffer) × (read_file file limit required (map chunk chunks) ≡ ok b)
        × Decides limit required (contents chunks) b
  unfolding read_file
  read_file-Decides file chunks =
      loop-Decides file chunks [] default (new required) (default-Holds limit)
        (new-IsTracking required) (needles-new required)

-- The buffer that a reader has who never stops early.
abbrev pub whole_read : ℕ → Bytes → CaptureBuffer
whole_read limit total = record { bytes = take limit total; incomplete = ltb limit (length total) }

Holds-whole_read :
    {limit : ℕ} {total : Bytes} {b : CaptureBuffer}
    → Holds limit total b
    → b ≡ whole_read limit total
Holds-whole_read h = λ i. record { bytes = h.prefix i; incomplete = h.truncated i }

all_found :
    (file : OsStr) (max_read : ℕ) (b : CaptureBuffer) (needles : List Bytes)
    → all (contains_slice b.bytes) needles ≡ true
    → check_texts file max_read b needles ≡ ok tt
unfolding check_texts
all_found file max_read b [] h = refl
all_found file max_read b (n ∷ ns) h = ground (arith, all_found file max_read b ns)

found_all :
    (file : OsStr) (max_read : ℕ) (b : CaptureBuffer) (needles : List Bytes)
    → check_texts file max_read b needles ≡ ok tt
    → all (contains_slice b.bytes) needles ≡ true
unfolding check_texts
found_all file max_read b [] h = refl
found_all file max_read b (n ∷ ns) h = ground (arith, found_all file max_read b ns)

check_texts-Decides :
    (file : OsStr) (limit : ℕ) (required : List Bytes) (total : Bytes) (b : CaptureBuffer)
    → Decides limit required total b
    → check_texts file limit b required ≡ check_texts file limit (whole_read limit total) required
check_texts-Decides file limit required total b d =
    elim (Bool-cases (all (contains_slice b.bytes) required)) [
      | inl found ↦
          all_found file limit b required found
          ∙ sym (all_found file limit (whole_read limit total) required (sym d.verdict ∙ found))
      | inr missing ↦
          ap (λ c. check_texts file limit c required) (Holds-whole_read (d.exhausted missing))
    ]

-- The result of the content check, error message included, is that of a check that reads the file to
-- its end and keeps its first `max_read` bytes.
pub check_contents-whole_read :
    (args : FileArgs) (fs : FileSystem) (chunks : List Bytes)
    → fs.reads ≡ map chunk chunks
    → check_contents args fs
      ≡ check_texts args.path args.max_read
          (whole_read args.max_read (contents chunks))
          args.contains
unfolding check_contents
check_contents-whole_read args fs chunks e = elim (Bool-cases (is_nil args.contains)) [
  | inl empty ↦ rw (empty, is_nil-eq args.contains empty) (unfold check_texts in refl)
  | inr some_text ↦
      let (b, run, d) = read_file-Decides args.max_read args.contains args.path chunks in
      rw (some_text, e, run)
        (check_texts-Decides args.path args.max_read args.contains (contents chunks) b d)
]

-- Over a file that is read without an error, the content check passes exactly when every required
-- text stands in the first `max_read` bytes of the file.
pub check_contents_iff :
    (args : FileArgs) (fs : FileSystem) (chunks : List Bytes)
    → fs.reads ≡ map chunk chunks
    → (check_contents args fs ≡ ok tt)
      ↔ All (λ needle. Occurs needle (take args.max_read (contents chunks))) args.contains
check_contents_iff args fs chunks e =
    let total = take args.max_read (contents chunks) in
    (
      λ h. all_contains-Occurs total args.contains (
          found_all args.path args.max_read (whole_read args.max_read (contents chunks))
            args.contains (sym (check_contents-whole_read args fs chunks e) ∙ h)),
      λ h.
          check_contents-whole_read args fs chunks e
          ∙ all_found args.path args.max_read (whole_read args.max_read (contents chunks))
              args.contains (Occurs-all_contains total args.contains h),
    )
