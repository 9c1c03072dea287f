-- ===== src/Capture/Limit.antt =====
-- The buffer holds the stream's first bytes, and says whether that is all of it.
use salus_rs.Prelude.{
  ℕ, zero, suc, ◌+◌, ◌-◌, ◌≤◌, min, ◌≡◌, refl, sym, ap, ◌∙◌, Bool, false, not, ◌||◌, ◌&&◌, [], ◌∷◌,
  ◌++◌, append-nil, append_assoc, arith, ltb, is_nil, length, take, length-append, length-take,
  drop, take-append-drop, take_all, take-append, Bytes, Bool-cases, inl, inr,
}
use native.Mathlib.Decide.{dec_le}
use salus_rs.Capture.{CaptureBuffer, default, append_limited}

-- What a buffer knows of the bytes of `stream` that were handed to it.
pub record Holds (limit : ℕ) (stream : Bytes) (b : CaptureBuffer) : Type 0 where
  pub prefix : b.bytes ≡ take limit stream
  pub truncated : b.incomplete ≡ ltb limit (length stream)

pub default-Holds : (limit : ℕ) → Holds limit [] default
default-Holds zero = record { prefix = refl; truncated = refl }
default-Holds (suc n) = record { prefix = refl; truncated = ground arith }

take-min : (n : ℕ) (xs : Bytes) → take (min (length xs) n) xs ≡ take n xs
take-min n xs = elim (dec_le (length xs) n) [
  | yes h ↦
      let e : min (length xs) n ≡ length xs = omega arith in
      rw e (take_all (length xs) xs (omega arith) ∙ sym (take_all n xs h))
  | no h ↦ let e : min (length xs) n ≡ n = omega arith in rw e
]

incomplete_lem :
    (b : CaptureBuffer) (chunk : Bytes) (limit : ℕ)
    → (append_limited b chunk limit).0.incomplete
      ≡ (b.incomplete || (not (is_nil chunk) && ltb limit (length b.bytes + length chunk)))
unfolding append_limited
incomplete_lem b [] limit = ground arith
incomplete_lem b (c ∷ chunk) limit = ground arith

module _ (b : CaptureBuffer) (chunk : Bytes) (limit : ℕ) where
  pub append_limited_bytes :
      (append_limited b chunk limit).0.bytes ≡ b.bytes ++ take (limit - length b.bytes) chunk
  unfolding append_limited
  append_limited_bytes = elim (Bool-cases (ltb (length b.bytes) limit)) [
    | inl room ↦ rw (room, take-min)
    | inr full ↦
        let e : limit - length b.bytes ≡ 0 = ground arith in rw (full, e) (sym (append-nil b.bytes))
  ]

  pub append_limited_incomplete :
      (append_limited b chunk limit).0.incomplete
      ≡ (b.incomplete || (not (is_nil chunk) && ltb limit (length b.bytes + length chunk)))
  append_limited_incomplete = incomplete_lem b chunk limit

  pub append_limited_len : (append_limited b chunk limit).1 ≡ length b.bytes
  unfolding append_limited
  append_limited_len = ground arith

truncated_lem :
    (inc : Bool) (limit n k : ℕ) (chunk : Bytes)
    → k ≡ min limit n
    → inc ≡ ltb limit n
    → (inc || (not (is_nil chunk) && ltb limit (k + length chunk))) ≡ ltb limit (n + length chunk)
truncated_lem inc limit n k [] e h = ground arith
truncated_lem inc limit n k (c ∷ chunk) e h = ground arith

-- A chunk more: the buffer holds the first `limit` bytes of all that was handed to it, and is
-- incomplete exactly when there were more.
pub append_limited-Holds :
    (limit : ℕ) (stream chunk : Bytes) (b : CaptureBuffer)
    → Holds limit stream b
    → Holds limit (stream ++ chunk) (append_limited b chunk limit).0
append_limited-Holds limit stream chunk b h =
    let held : length b.bytes ≡ min limit (length stream) =
      ap length h.prefix ∙ length-take limit stream in
    let left : limit - length b.bytes ≡ limit - length stream = omega arith in
    record {
      prefix =
          append_limited_bytes b chunk limit
          ∙ ap (λ k. b.bytes ++ take k chunk) left
          ∙ ap (λ t. t ++ take (limit - length stream) chunk) h.prefix
          ∙ sym (take-append limit stream chunk);
      truncated =
          append_limited_incomplete b chunk limit
          ∙ truncated_lem b.incomplete limit (length stream) (length b.bytes) chunk held h.truncated
          ∙ ap (ltb limit) (sym (length-append stream chunk));
    }

-- What a buffer says of the stream: all of it, or its first bytes.
module _ (limit : ℕ) (seen : Bytes) (b : CaptureBuffer) (h : Holds limit seen b) where
  pub Holds-whole : b.incomplete ≡ false → seen ≡ b.bytes
  Holds-whole e =
      let short : length seen ≤ limit = ground (arith, h.truncated) in
      sym (take_all limit seen short) ∙ sym h.prefix

  pub Holds-prefix : (more : Bytes) → (rest : Bytes) × (seen ++ more ≡ b.bytes ++ rest)
  Holds-prefix more = (
    drop limit seen ++ more,
    ap (λ s. s ++ more) (sym (take-append-drop limit seen))
        ∙ append_assoc (take limit seen) (drop limit seen) more
        ∙ ap (λ s. s ++ (drop limit seen ++ more)) (sym h.prefix),
  )
