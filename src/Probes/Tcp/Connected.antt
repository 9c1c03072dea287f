-- ===== src/Probes/Tcp/Connected.antt =====
-- When the loop over the addresses connects.
use salus_rs.Prelude.{
  ℕ, ◌-◌, ◌*◌, ◌/◌, ◌≤◌, ◌<◌, min, max, ◌≡◌, ◌↔◌, inl, inr, true, false, Option, some, List, [],
  ◌∷◌, arith, ◌==◌, leb, length, ok, err, Bool-cases, Result-cases, map_err-ok, sym, ◌∙◌,
}
use native.Mathlib.Nat.{mul-div-le}
use salus_rs.Error.{Message, display}
use salus_rs.Probes.Tcp.{Attempt, per_attempt_timeout, one_millisecond, connect, connect_loop}

-- The attempt that is made with `left` addresses still to try succeeds.
abbrev pub Succeeds : ℕ → ℕ → Attempt → Type 0
Succeeds deadline left a =
    (a.takes ≤ per_attempt_timeout (deadline - a.now) left) × (a.result ≡ ok tt)

-- Some address connects, and the turn of every one up to it comes before the deadline.
pub data Connects (deadline : ℕ) : List Attempt → Type 0 where
  here :
      {a : Attempt} {attempts : List Attempt}
      → a.now < deadline
      → Succeeds deadline (length (a ∷ attempts)) a
      → Connects deadline (a ∷ attempts)
  later :
      {a : Attempt} {attempts : List Attempt}
      → a.now < deadline
      → Connects deadline attempts
      → Connects deadline (a ∷ attempts)

module _ (a : Attempt) (per_attempt : ℕ) where
  connect-ok : connect a per_attempt ≡ ok tt → (a.takes ≤ per_attempt) × (a.result ≡ ok tt)
  unfolding connect
  connect-ok h = elim (Bool-cases (leb a.takes per_attempt)) [
    | inl fits ↦ (
      ground (arith, fits),
      map_err-ok (λ error. display error ∷ []) a.result (ground (arith, h, fits)),
    )
    | inr slow ↦ absurd (ground (arith, h, slow))
  ]

  ok-connect : a.takes ≤ per_attempt → a.result ≡ ok tt → connect a per_attempt ≡ ok tt
  unfolding connect
  ok-connect fits good =
      let e : leb a.takes per_attempt ≡ true = ground (arith, fits) in rw (e, good)

-- One round.
module _ (deadline : ℕ) (a : Attempt) (attempts : List Attempt) (last_error : Option Message) where
  abbrev share : ℕ
  share = per_attempt_timeout (deadline - a.now) (length (a ∷ attempts))

  too_late :
      ((deadline - a.now) == 0) ≡ true
      → connect_loop deadline (a ∷ attempts) last_error ≡ err last_error
  unfolding connect_loop
  too_late late = rw (late, connect_loop)

  connected :
      ((deadline - a.now) == 0) ≡ false
      → connect a share ≡ ok tt
      → connect_loop deadline (a ∷ attempts) last_error ≡ ok tt
  unfolding connect_loop
  connected early e = rw (early, e, connect_loop)

  not_connected :
      (error : Message)
      → ((deadline - a.now) == 0) ≡ false
      → connect a share ≡ err error
      → connect_loop deadline (a ∷ attempts) last_error
        ≡ connect_loop deadline attempts (some error)
  unfolding connect_loop
  not_connected error early e = rw (early, e, connect_loop)

loop-Connects :
    (deadline : ℕ) (attempts : List Attempt) (last_error : Option Message)
    → connect_loop deadline attempts last_error ≡ ok tt
    → Connects deadline attempts
unfolding connect_loop
loop-Connects deadline [] last_error h = absurd (ground (arith, h))
loop-Connects deadline (a ∷ attempts) last_error h = elim (Bool-cases ((deadline - a.now) == 0)) [
  | inl late ↦ absurd (ground (arith, sym (too_late deadline a attempts last_error late) ∙ h))
  | inr early ↦ elim (Result-cases (connect a (share deadline a attempts last_error))) [
    | inl (_, e) ↦ here (ground (arith, early)) (connect-ok a _ e)
    | inr (error, e) ↦ later (ground (arith, early)) (
        loop-Connects deadline attempts (some error)
          (sym (not_connected deadline a attempts last_error error early e) ∙ h))
  ]
]

Connects-loop :
    (deadline : ℕ) (attempts : List Attempt) (last_error : Option Message)
    → Connects deadline attempts
    → connect_loop deadline attempts last_error ≡ ok tt
Connects-loop deadline [] last_error c = elim c [ ]
Connects-loop deadline (a ∷ attempts) last_error (here early s) =
    connected deadline a attempts last_error (ground (arith, early)) (ok-connect a _ s.0 s.1)
Connects-loop deadline (a ∷ attempts) last_error (later early c) =
    elim (Result-cases (connect a (share deadline a attempts last_error))) [
      | inl (_, e) ↦ connected deadline a attempts last_error (ground (arith, early)) e
      | inr (error, e) ↦
          not_connected deadline a attempts last_error error (ground (arith, early)) e
          ∙ Connects-loop deadline attempts (some error) c
    ]

-- The loop connects exactly when some address connects within its share of the time, and its turn and
-- those of the addresses before it come before the deadline.
pub connect_loop_iff :
    (deadline : ℕ) (attempts : List Attempt) (last_error : Option Message)
    → (connect_loop deadline attempts last_error ≡ ok tt) ↔ Connects deadline attempts
connect_loop_iff deadline attempts last_error =
    (loop-Connects deadline attempts last_error, Connects-loop deadline attempts last_error)

-- The share of one attempt is at least a millisecond, and if it is more, then that many shares fit into
-- the time that is left.
pub per_attempt_timeout-bounds :
    (remaining left : ℕ)
    → 0 < left
    → left ≤ 4294967295
    → (one_millisecond ≤ per_attempt_timeout remaining left)
      × (one_millisecond < per_attempt_timeout remaining left
          → left * per_attempt_timeout remaining left ≤ remaining)
unfolding per_attempt_timeout
per_attempt_timeout-bounds remaining left some_left h =
    let e : min (max left 1) 4294967295 ≡ left = omega (arith, h, some_left) in
    rw e (
      omega arith,
      λ more.
          let larger : max (remaining / left) one_millisecond ≡ remaining / left =
            omega (arith, more) in
          rw larger (mul-div-le remaining left),
    )
